-- ===== src/Config/Validate/Accepted.antt =====
-- What an accepted configuration is as a whole, and the keys of its upstreams
-- (internal/config/config.go, `validate`; internal/gateway/gateway.go, `UpstreamID`).
use rusty_gateway.Common.{
  ◌≡◌, refl, sym, subst, ◌∙◌, true, false, List, [], ◌∷◌, ◌++◌, is_nil, map, all, In, inl, inr,
  ◌==◌, ◌||◌, not, arith, append_assoc,
}
use rusty_gateway.Common.Text.{Text, codes, is_empty}
use rusty_gateway.Gateway.Names.{upstream_id}
use rusty_gateway.Config.{NamespaceConfig, Config}
use rusty_gateway.Config.Validate.{
  NamespaceError, check, is_negative, name_byte, is_name, check_namespace, check_namespaces,
  tag_namespace, Host, validate, check_upstreams, check_auth, is_cloudflare, limits_ok,
  no_public_url, ui_cloudflare, limits_negative, breaker_negative, no_namespace,
}
use rusty_gateway.Config.Validate.Sound.{
  append_empty, check-false, not-true, AcceptedNamespace, check_namespace-Accepted,
}

-- Each namespace passed its checks, the later ones with the earlier names taken.
abbrev pub AllAccepted : List Text → List Text → List NamespaceConfig → Type 0
AllAccepted known seen [] = Unit
AllAccepted known seen (ns ∷ nss) =
    AcceptedNamespace known seen ns × AllAccepted known (ns.name ∷ seen) nss

untagged : (name : Text) (es : List NamespaceError) → tag_namespace name es ≡ [] → es ≡ []
unfolding tag_namespace
untagged name [] h = refl
untagged name (e ∷ es) h = cc

check_namespaces-AllAccepted :
    (known seen : List Text) (nss : List NamespaceConfig)
    → check_namespaces known seen nss ≡ []
    → AllAccepted known seen nss
unfolding check_namespaces
check_namespaces-AllAccepted known seen [] h = tt
check_namespaces-AllAccepted known seen (ns ∷ nss) h =
    let (here, rest) =
      append_empty (tag_namespace ns.name (check_namespace known seen ns))
        (check_namespaces known (ns.name ∷ seen) nss) h in
    (
      check_namespace-Accepted known seen ns (untagged ns.name _ here),
      check_namespaces-AllAccepted known (ns.name ∷ seen) nss rest,
    )

module _ (host : Host) (c : Config) where
  abbrev server_names : List Text
  server_names = map (λ e. e.0) c.servers

  -- without errors, no part of `validate` has found one
  pub sections-empty :
      (validate host c).1 ≡ []
      → (check (is_empty c.server.public_url) no_public_url ≡ [])
        × (check_auth host c.auth ≡ [])
        × (check (not (is_cloudflare host c.ui_cloudflare)) ui_cloudflare ≡ [])
        × (check (not (limits_ok host c.limits)) limits_negative ≡ [])
        × (check (is_nil c.namespaces) no_namespace ≡ [])
        × (check_namespaces server_names [] c.namespaces ≡ [])
  unfolding validate
  sections-empty h =
      let (e7, k8) = append_empty _ (check_upstreams host c.servers).1 h in
      let (e6, k7) = append_empty _ (check_namespaces server_names [] c.namespaces) e7 in
      let (e5, k6) = append_empty _ (check (is_nil c.namespaces) no_namespace) e6 in
      let (e4, k5) =
        append_empty _
          (check (is_negative c.breaker.failures || is_negative c.breaker.cooldown)
            breaker_negative)
          e5 in
      let (e3, k4) = append_empty _ (check (not (limits_ok host c.limits)) limits_negative) e4 in
      let (e2, k3) =
        append_empty _ (check (not (is_cloudflare host c.ui_cloudflare)) ui_cloudflare) e3 in
      let (k1, k2) =
        append_empty (check (is_empty c.server.public_url) no_public_url) (check_auth host c.auth)
          e2 in
      (k1, k2, k3, k4, k6, k7)

  -- A configuration without errors has a public URL, at least one namespace, and limits that are
  -- not negative. Its namespaces have allowed and different names; each refers only to servers
  -- that are configured, and pins only prefixed names of tools of its own servers.
  pub validate-Accepted :
      (validate host c).1 ≡ []
      → (is_empty c.server.public_url ≡ false)
        × (is_nil c.namespaces ≡ false)
        × (limits_ok host c.limits ≡ true)
        × AllAccepted (map (λ e. e.0) c.servers) [] c.namespaces
  validate-Accepted h =
      let (k1, _, _, k4, k6, k7) = sections-empty h in
      (
        check-false _ no_public_url k1,
        check-false _ no_namespace k6,
        not-true (limits_ok host c.limits) (check-false _ limits_negative k4),
        check_namespaces-AllAccepted server_names [] c.namespaces k7,
      )

-- no '/' in a text
abbrev NoSlash : Text → Type 0
NoSlash [] = Unit
NoSlash (c ∷ s) = ((c == b'/') ≡ false) × NoSlash s

name_bytes-NoSlash : (s : Text) → all name_byte s ≡ true → NoSlash s
unfolding name_byte
name_bytes-NoSlash [] h = tt
name_bytes-NoSlash (c ∷ s) h = (ground arith, name_bytes-NoSlash s (ground arith))

is_name-NoSlash : (s : Text) → is_name s ≡ true → NoSlash s
unfolding is_name name_byte
is_name-NoSlash [] h = tt
is_name-NoSlash (c ∷ s) h = (ground arith, name_bytes-NoSlash s (ground arith))

split_slash :
    (a b x y : Text) → NoSlash a → NoSlash b → a ++ b'/' ∷ x ≡ b ++ b'/' ∷ y → (a ≡ b) × (x ≡ y)
split_slash [] [] x y na nb h = (refl, cc)
split_slash [] (d ∷ b) x y na nb h = ground arith
split_slash (c ∷ a) [] x y na nb h = ground arith
split_slash (c ∷ a) (d ∷ b) x y na nb h = ground (arith, split_slash a b x y na.1 nb.1)

pub accepted-named :
    (known seen : List Text) (nss : List NamespaceConfig) (ns : NamespaceConfig)
    → AllAccepted known seen nss
    → In ns nss
    → is_name ns.name ≡ true
accepted-named known seen [] ns h i = absurd i
accepted-named known seen (n ∷ nss) ns h (inl e) = subst (λ m. is_name m.name ≡ true) e h.0.named
accepted-named known seen (n ∷ nss) ns h (inr i) = accepted-named known (n.name ∷ seen) nss ns h.1 i

-- In an accepted configuration two upstreams have one ID only if the names of their namespaces and
-- of their servers are the same.
pub upstream_id_unique :
    (host : Host) (c : Config) (n m : NamespaceConfig) (s t : Text)
    → (validate host c).1 ≡ []
    → In n c.namespaces
    → In m c.namespaces
    → upstream_id n.name s ≡ upstream_id m.name t
    → (n.name ≡ m.name) × (s ≡ t)
unfolding upstream_id
upstream_id_unique host c n m s t valid i j same =
    let accepted = (validate-Accepted host c valid).3 in
    split_slash n.name m.name s t
      (is_name-NoSlash n.name
        (accepted-named (map (λ e. e.0) c.servers) [] c.namespaces n accepted i))
      (is_name-NoSlash m.name
        (accepted-named (map (λ e. e.0) c.servers) [] c.namespaces m accepted j))
      (sym (append_assoc n.name (codes "/") s) ∙ same ∙ append_assoc m.name (codes "/") t)
