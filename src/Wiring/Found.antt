-- ===== src/Wiring/Found.antt =====
-- Whether every upstream of an accepted configuration is found under its ID, with its own settings
-- (cmd/gateway/main.go, internal/supervisor/supervisor.go, internal/gateway/limits.go).
use rusty_gateway.Common.{
  ◌≡◌, refl, sym, ap, ap₂, subst, ◌∙◌, false-true, true, false, some, List, [], ◌∷◌, ◌++◌, In,
  In-append_left, In-append_right, inl, inr, ◌⊎◌, Bool-cases, Assoc, lookup, insert, lookup-insert,
}
use rusty_gateway.Common.Text.{Text, text_eq, text_eq_sound, text_eq_refl}
use rusty_gateway.Gateway.Limits.{override, server_limit, timeout}
use rusty_gateway.Gateway.Names.{upstream_id}
use rusty_gateway.Config.{NamespaceConfig, Config}
use rusty_gateway.Config.Validate.{Host, validate}
use rusty_gateway.Config.Validate.Accepted.{upstream_id_unique}
use rusty_gateway.Wiring.{
  server_of, spec_of, keyed_servers, keyed, put_all, upstream_table, limits_of,
}

module _ {V : Type 0} (k : Text) (v : V) where
  -- each entry under the key k has the value v
  abbrev Agree : List (Text × V) → Type 0
  Agree [] = Unit
  Agree ((j, w) ∷ entries) = (text_eq j k ≡ true → w ≡ v) × Agree entries

  lookup-put_all :
      (entries : List (Text × V)) (m : Assoc V)
      → Agree entries
      → In (k, v) entries ⊎ (lookup k m ≡ some v)
      → lookup k (put_all entries m) ≡ some v
  unfolding put_all
  lookup-put_all [] m agree (inl i) = absurd i
  lookup-put_all [] m agree (inr h) = h
  lookup-put_all ((j, w) ∷ entries) m agree h = elim (Bool-cases (text_eq j k)) [
    | inl same ↦
        lookup-put_all entries (insert j w m) agree.1
          (inr (lookup-insert j k w m ∙ rw same (ap some (agree.0 same))))
    | inr other ↦ lookup-put_all entries (insert j w m) agree.1 (still j w entries m other h)
  ]
    where
      still :
          (j : Text) (w : V) (entries : List (Text × V)) (m : Assoc V)
          → text_eq j k ≡ false
          → In (k, v) ((j, w) ∷ entries) ⊎ (lookup k m ≡ some v)
          → In (k, v) entries ⊎ (lookup k (insert j w m) ≡ some v)
      still j w entries m other (inl (inl e)) = absurd (
          false-true
            (sym other ∙ subst (λ x. text_eq j x ≡ true) (ap (λ p. p.0) e) (text_eq_refl j)))
      still j w entries m other (inl (inr i)) = inl i
      still j w entries m other (inr h) = inr (lookup-insert j k w m ∙ rw other h)

module _ {V : Type 0} (f : Text → Text → V) where
  In-keyed_servers :
      (ns s : Text) (names : List Text)
      → In s names
      → In (upstream_id ns s, f ns s) (keyed_servers f ns names)
  unfolding keyed_servers
  In-keyed_servers ns s [] i = absurd i
  In-keyed_servers ns s (name ∷ names) (inl e) = inl (ap (λ n. (upstream_id ns n, f ns n)) e)
  In-keyed_servers ns s (name ∷ names) (inr i) = inr (In-keyed_servers ns s names i)

  In-keyed :
      (n : NamespaceConfig) (s : Text) (nss : List NamespaceConfig)
      → In n nss
      → In s n.servers
      → In (upstream_id n.name s, f n.name s) (keyed f nss)
  unfolding keyed
  In-keyed n s [] i j = absurd i
  In-keyed n s (m ∷ nss) (inl e) j =
      In-append_left (upstream_id n.name s, f n.name s) (keyed_servers f m.name m.servers)
        (keyed f nss)
        (subst (λ x. In (upstream_id n.name s, f n.name s) (keyed_servers f x.name x.servers))
          (sym e) (In-keyed_servers n.name s n.servers j))
  In-keyed n s (m ∷ nss) (inr i) j =
      In-append_right (upstream_id n.name s, f n.name s) (keyed_servers f m.name m.servers)
        (keyed f nss) (In-keyed n s nss i j)

module _ (host : Host) (c : Config) (valid : (validate host c).1 ≡ []) where
  module _ {V : Type 0} (f : Text → Text → V) (n : NamespaceConfig) (s : Text)
      (i : In n c.namespaces) where
    abbrev Agrees : List (Text × V) → Type 0
    Agrees = Agree (upstream_id n.name s) (f n.name s)

    same-value :
        (m : NamespaceConfig) (t : Text)
        → In m c.namespaces
        → text_eq (upstream_id m.name t) (upstream_id n.name s) ≡ true
        → f m.name t ≡ f n.name s
    same-value m t j same =
        let (names, servers) =
          upstream_id_unique host c m n t s valid j i (text_eq_sound _ _ same) in
        ap₂ f names servers

    keyed_servers-Agrees :
        (m : NamespaceConfig) (names : List Text)
        → In m c.namespaces
        → Agrees (keyed_servers f m.name names)
    unfolding keyed_servers
    keyed_servers-Agrees m [] j = tt
    keyed_servers-Agrees m (t ∷ names) j =
        ((λ same. same-value m t j same), keyed_servers-Agrees m names j)

    append-Agrees : (xs ys : List (Text × V)) → Agrees xs → Agrees ys → Agrees (xs ++ ys)
    append-Agrees [] ys a b = b
    append-Agrees (x ∷ xs) ys a b = (a.0, append-Agrees xs ys a.1 b)

    keyed-Agrees :
        (nss : List NamespaceConfig)
        → ((m : NamespaceConfig) → In m nss → In m c.namespaces)
        → Agrees (keyed f nss)
    unfolding keyed
    keyed-Agrees [] sub = tt
    keyed-Agrees (m ∷ nss) sub =
        append-Agrees (keyed_servers f m.name m.servers) (keyed f nss)
          (keyed_servers-Agrees m m.servers (sub m (inl refl)))
          (keyed-Agrees nss λ o j. sub o (inr j))

    lookup-keyed :
        In s n.servers
        → lookup (upstream_id n.name s) (put_all (keyed f c.namespaces) []) ≡ some (f n.name s)
    lookup-keyed j =
        lookup-put_all (upstream_id n.name s) (f n.name s) (keyed f c.namespaces) []
          (keyed-Agrees c.namespaces λ m k. k) (inl (In-keyed f n s c.namespaces i j))

pub same-namespaces :
    (host : Host) (c out : Config) → validate host c ≡ (out, []) → c.namespaces ≡ out.namespaces
unfolding validate
same-namespaces host c out accepted = ap (λ r. r.0.namespaces) accepted

pub upstream_table_found :
    (host : Host) (c out : Config) (n : NamespaceConfig) (s : Text)
    → validate host c ≡ (out, [])
    → In n out.namespaces
    → In s n.servers
    → (lookup (upstream_id n.name s) (upstream_table out) ≡ some (spec_of out n.name s))
      × (server_limit (limits_of out) (upstream_id n.name s)
          ≡ override (some (server_of out s).max_concurrent) out.limits.per_server)
      × (timeout (limits_of out) (upstream_id n.name s)
          ≡ override (some (server_of out s).call_timeout) out.limits.call_timeout)
unfolding upstream_table limits_of server_limit timeout spec_of
upstream_table_found host c out n s accepted i j =
    let valid = ap (λ r. r.1) accepted in
    let same = same-namespaces host c out accepted in
    let listed = subst (In n) (sym same) i in
    rw (sym same) (
      lookup-keyed host c valid (spec_of out) n s listed j,
      ap (λ o. override o out.limits.per_server)
          (lookup-keyed host c valid (λ ns name. (server_of out name).max_concurrent) n s listed j),
      ap (λ o. override o out.limits.call_timeout)
          (lookup-keyed host c valid (λ ns name. (server_of out name).call_timeout) n s listed j),
    )
