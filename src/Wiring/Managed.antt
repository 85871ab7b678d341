-- ===== src/Wiring/Managed.antt =====
-- Which upstreams of an accepted configuration the login manager takes care of
-- (cmd/gateway/main.go, internal/upstreamauth/manager.go).
use rusty_gateway.Common.{
  ◌≡◌, refl, sym, ap, subst, ◌∙◌, false-true, true, false, Option, none, some, List, [], ◌∷◌, ◌++◌,
  In, inl, inr, ◌⊎◌, Bool-cases, Assoc, lookup, if◌then◌else◌, arith, ◌||◌, is_nil,
}
use rusty_gateway.Common.Text.{Text, text_eq, text_eq_sound, text_eq_refl}
use rusty_gateway.Gateway.Names.{upstream_id}
use rusty_gateway.Config.{NamespaceConfig, Config}
use rusty_gateway.Config.Validate.{Host, validate}
use rusty_gateway.Config.Validate.Accepted.{upstream_id_unique}
use rusty_gateway.UpstreamAuth.{Entry}
use rusty_gateway.UpstreamAuth.Manager.{Upstream, Loaded, load_failed}
use rusty_gateway.UpstreamAuth.Manager.Entries.{is_loaded, handler_of, named, new_manager-lookup}
use rusty_gateway.Wiring.{server_of, spec_of, oauth_servers, oauth_upstreams, manager_of}
use rusty_gateway.Wiring.Found.{same-namespaces}

named-append :
    (id : Text) (xs ys : List Upstream) → named id (xs ++ ys) ≡ named id xs || named id ys
named-append id [] ys = refl
named-append id (x ∷ xs) ys = elim (Bool-cases (text_eq x.id id)) [
  | inl same ↦ rw same refl
  | inr other ↦ rw other (named-append id xs ys)
]

module _ (c : Config) where
  servers-named :
      (ns s : Text) (names : List Text)
      → In s names
      → (server_of c s).oauth ≡ true
      → named (upstream_id ns s) (oauth_servers c ns names) ≡ true
  unfolding oauth_servers
  servers-named ns s [] i o = absurd i
  servers-named ns s (name ∷ names) (inl e) o =
      rw (e, o) (rw (text_eq_refl (upstream_id ns s)) refl)
  servers-named ns s (name ∷ names) (inr i) o = elim (Bool-cases (server_of c name).oauth) [
    | inl on ↦ rw on (ground (arith, servers-named ns s names i o))
    | inr off ↦ rw off (servers-named ns s names i o)
  ]

  upstreams-named :
      (n : NamespaceConfig) (s : Text) (nss : List NamespaceConfig)
      → In n nss
      → In s n.servers
      → (server_of c s).oauth ≡ true
      → named (upstream_id n.name s) (oauth_upstreams c nss) ≡ true
  unfolding oauth_upstreams
  upstreams-named n s [] i j o = absurd i
  upstreams-named n s (m ∷ nss) (inl e) j o =
      rw
        (
          e,
          named-append (upstream_id n.name s) (oauth_servers c n.name n.servers)
              (oauth_upstreams c nss),
        )
        (ground (arith, servers-named n.name s n.servers j o))
  upstreams-named n s (m ∷ nss) (inr i) j o =
      rw
        (named-append (upstream_id n.name s) (oauth_servers c m.name m.servers)
          (oauth_upstreams c nss))
        (ground (arith, upstreams-named n s nss i j o))

  -- a server that needs a login, with this ID
  abbrev Asks : Text → Text → List Text → Type 0
  Asks id ns names =
      (s : Text) × In s names × (upstream_id ns s ≡ id) × ((server_of c s).oauth ≡ true)

  Asks-more : (id ns name : Text) (names : List Text) → Asks id ns names → Asks id ns (name ∷ names)
  Asks-more id ns name names (s, i, e, o) = (s, inr i, e, o)

  servers-Asks :
      (id ns : Text) (names : List Text)
      → named id (oauth_servers c ns names) ≡ true
      → Asks id ns names
  unfolding oauth_servers
  servers-Asks id ns [] h = absurd (false-true h)
  servers-Asks id ns (name ∷ names) h = elim (Bool-cases (server_of c name).oauth) [
    | inr off ↦ Asks-more id ns name names (servers-Asks id ns names (rw off at h))
    | inl on ↦ elim (Bool-cases (text_eq (upstream_id ns name) id)) [
      | inl same ↦ (name, inl refl, text_eq_sound (upstream_id ns name) id same, on)
      | inr other ↦ Asks-more id ns name names (servers-Asks id ns names (rw (on, other) at h))
    ]
  ]

  upstreams-Asks :
      (id : Text) (nss : List NamespaceConfig)
      → named id (oauth_upstreams c nss) ≡ true
      → (m : NamespaceConfig) × In m nss × Asks id m.name m.servers
  unfolding oauth_upstreams
  upstreams-Asks id [] h = absurd (false-true h)
  upstreams-Asks id (m ∷ nss) h = elim (Bool-cases (named id (oauth_servers c m.name m.servers))) [
    | inl here ↦ (m, inl refl, servers-Asks id m.name m.servers here)
    | inr other ↦
        let (k, i, asks) = upstreams-Asks id nss (
          rw (named-append id (oauth_servers c m.name m.servers) (oauth_upstreams c nss), other) at
            h) in
        (k, inr i, asks)
  ]

-- the manager has the upstream exactly if its server needs a login
named-oauth :
    (host : Host) (c out : Config) (n : NamespaceConfig) (s : Text)
    → validate host c ≡ (out, [])
    → In n out.namespaces
    → In s n.servers
    → named (upstream_id n.name s) (oauth_upstreams out out.namespaces) ≡ (server_of out s).oauth
named-oauth host c out n s accepted i j = elim (Bool-cases (server_of out s).oauth) [
  | inl on ↦ upstreams-named out n s out.namespaces i j on ∙ sym on
  | inr off ↦
      elim (Bool-cases (named (upstream_id n.name s) (oauth_upstreams out out.namespaces))) [
        | inr missing ↦ missing ∙ sym off
        | inl found ↦
            let (m, k, (t, l, e, o)) =
              upstreams-Asks out (upstream_id n.name s) out.namespaces found in
            let same = sym (same-namespaces host c out accepted) in
            let (_, servers) =
              upstream_id_unique host c m n t s (ap (λ r. r.1) accepted) (subst (In m) same k)
                (subst (In n) same i) e in
            absurd (false-true (sym off ∙ ap (λ x. (server_of out x).oauth) (sym servers) ∙ o))
      ]
]

-- the entry of an upstream, where there is a manager
abbrev pub entry_at : Option (Assoc Entry) → Text → Option Entry
entry_at none id = none
entry_at (some entries) id = lookup id entries

-- For a configuration that `validate` accepts, and as it leaves it: once the state database is
-- open, the manager is missing only when the store fails to load the credentials of some upstream
-- that needs a login. Else, for every server of every namespace, the login manager has its upstream
-- exactly when the specification that the supervisor gets says that it needs a login; and the
-- upstream has a handler from the start exactly when its credentials were loaded.
pub manager_of-handlers :
    (host : Host) (c out : Config) (load : Text → Loaded)
    → validate host c ≡ (out, [])
    → ((manager_of load out ≡ none)
        × ((up : Upstream) × In up (oauth_upstreams out out.namespaces)
            × ((err : Text) × (load up.id ≡ load_failed err))))
      ⊎ ((ua : Option (Assoc Entry)) × (manager_of load out ≡ some ua)
          × ((n : NamespaceConfig) (s : Text)
              → In n out.namespaces
              → In s n.servers
              → handler_of (entry_at ua (upstream_id n.name s)) ≡ (
                  if (spec_of out n.name s).oauth
                  then some (is_loaded (load (upstream_id n.name s)))
                  else none)))
unfolding manager_of spec_of
manager_of-handlers host c out load accepted =
    elim (Bool-cases (is_nil (oauth_upstreams out out.namespaces))) [
      | inl empty ↦ inr (
        none,
        rw empty refl,
        λ n s i j. rw (sym (named-oauth host c out n s accepted i j)) (
            ap (λ b. if b then some (is_loaded (load (upstream_id n.name s))) else none)
              (sym (named-nil (upstream_id n.name s) (oauth_upstreams out out.namespaces) empty))),
      )
      | inr some_ups ↦ elim (new_manager-lookup load (oauth_upstreams out out.namespaces)) [
        | inl (failed, why) ↦ inl (rw (some_ups, failed) refl, why)
        | inr (entries, made, found) ↦ inr (
          some entries,
          rw (some_ups, made) refl,
          λ n s i j.
              found (upstream_id n.name s)
              ∙ ap (λ b. if b then some (is_loaded (load (upstream_id n.name s))) else none)
                  (named-oauth host c out n s accepted i j),
        )
      ]
    ]
  where
    named-nil : (id : Text) (ups : List Upstream) → is_nil ups ≡ true → named id ups ≡ false
    named-nil id [] e = refl
    named-nil id (up ∷ ups) e = absurd (false-true e)
