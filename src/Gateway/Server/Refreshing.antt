-- ===== src/Gateway/Server/Refreshing.antt =====
-- The native tools of all namespaces follow the upstreams (internal/gateway/gateway.go, `Refresh`,
-- `RefreshAll`; cmd/gateway/main.go, the OnChange of the supervisor).
use rusty_gateway.Common.{
  ◌≡◌, refl, sym, ap, ◌∙◌, Bool, true, false, ◌||◌, Option, none, some, List, [], ◌∷◌, ◌++◌, map,
  any, All, All-lookup, In, if◌then◌else◌, lookup, insert, Bool-cases, inl, inr, ◌⊎◌, arith,
  false-true,
}
use rusty_gateway.Common.Text.{Text, text_eq, text_eq_sound}
use rusty_gateway.Gateway.Limits.{Limits}
use rusty_gateway.Gateway.Breaker.{BreakerConfig}
use rusty_gateway.Gateway.Discovery.{Namespace, Tool}
use rusty_gateway.Gateway.Discovery.Sync.{Wanted, wanted, sync_locked, syncs}
use rusty_gateway.Gateway.Discovery.Sync.Following.{
  Distinct, IsConsistent, encoded_of, wanted_text, sync_exact,
}
use rusty_gateway.Gateway.Discovery.Sync.Agreeing.{wanted-agree, wanted-none}
use rusty_gateway.Gateway.Server.{
  Server, Gateway, includes, synced, refresh_servers, refresh, refresh_all, new_gateway, new_server,
  add_namespaces,
}

abbrev pub Entries : Type 0
Entries = List (Text × Server)

apart : (a b : Bool) → (a || b) ≡ false → (a ≡ false) × (b ≡ false)
apart a b h = ground arith

-- one of these changes is a change of this upstream
abbrev pub lists : Text → List Text → Bool
lists id pending = any (λ k. text_eq k id) pending

module _ (marshal : Tool → Text) where
  -- what a namespace should offer of this catalog: nothing in the modes without native tools
  abbrev pub target : (Text → Option (List Tool)) → Namespace → List Wanted
  target catalog ns = if syncs ns.discovery then wanted marshal catalog ns else []

  -- The server offers exactly the tools of the target, each with the text that is wanted.
  abbrev pub Follows : (Text → Option (List Tool)) → Server → Type 0
  Follows catalog s =
      ((name : Text)
        → encoded_of (lookup name s.native.offered) ≡ wanted_text name (target catalog s.ns))
      × IsConsistent s.native

  -- the tools that each namespace wants have names of their own, and texts that are not empty
  abbrev pub AllDistinct : (Text → Option (List Tool)) → Entries → Type 0
  AllDistinct catalog entries = All (λ e. Distinct (wanted marshal catalog e.1.ns)) entries

  synced-Follows :
      (old new : Text → Option (List Tool)) (s : Server)
      → Distinct (wanted marshal new s.ns)
      → Follows old s
      → Follows new (synced marshal new s)
  unfolding synced sync_locked
  synced-Follows old new s d h = elim (Bool-cases (syncs s.ns.discovery)) [
    | inl native ↦ rw native (sync_exact (wanted marshal new s.ns) s.native d h.1)
    | inr without ↦ rw without (rw without at h)
  ]

  -- the server follows a catalog that lists the same for its upstreams
  agreeing-Follows :
      (old new : Text → Option (List Tool)) (s : Server)
      → ((j : Text) → includes j s.ns ≡ true → new j ≡ old j)
      → Follows old s
      → Follows new s
  agreeing-Follows old new s agree h = (
    λ name.
        h.0 name
        ∙ ap (λ (ws : List Wanted). wanted_text name (if syncs s.ns.discovery then ws else []))
            (sym (wanted-agree marshal old new s.ns agree)),
    h.1,
  )

  -- nothing is offered yet
  abbrev IsBlank : Server → Type 0
  IsBlank s = (s.native.offered ≡ []) × (s.native.registered ≡ [])

  abbrev AllBlank : Entries → Type 0
  AllBlank entries = All (λ e. IsBlank e.1) entries

  insert-AllBlank :
      (name : Text) (s : Server) (entries : Entries)
      → IsBlank s
      → AllBlank entries
      → AllBlank (insert name s entries)
  unfolding insert
  insert-AllBlank name s [] b h = (b, tt)
  insert-AllBlank name s ((j, r) ∷ entries) b h = elim (Bool-cases (text_eq j name)) [
    | inl same ↦ rw same (b, h.1)
    | inr other ↦ rw other (h.0, insert-AllBlank name s entries b h.1)
  ]

  add_namespaces-AllBlank :
      (limits : Limits) (cfg : BreakerConfig) (nss : List Namespace) (g : Gateway)
      → AllBlank g.servers
      → AllBlank (add_namespaces limits cfg nss g).servers
  unfolding add_namespaces new_server
  add_namespaces-AllBlank limits cfg [] g h = h
  add_namespaces-AllBlank limits cfg (ns ∷ nss) g h =
      add_namespaces-AllBlank limits cfg nss _
        (insert-AllBlank ns.name (new_server limits ns) g.servers (refl, refl) h)

  -- a blank server offers what a catalog makes it want that lists nothing
  blank-Follows :
      (catalog : Text → Option (List Tool)) (s : Server)
      → ((j : Text) → (catalog j ≡ none) ⊎ (catalog j ≡ some []))
      → IsBlank s
      → Follows catalog s
  unfolding wanted_text lookup
  blank-Follows catalog s empty b = elim (Bool-cases (syncs s.ns.discovery)) [
    | inl native ↦ rw native (
      (λ name. rw (b.0, wanted-none marshal catalog s.ns empty) refl),
      λ name. rw (b.0, b.1) refl,
    )
    | inr without ↦ rw without ((λ name. rw b.0 refl), λ name. rw (b.0, b.1) refl)
  ]

  -- The gateway in a run of the program, with the catalog of the supervisor as it is now, and the
  -- upstreams that have changed, with one entry for each change that the Refresh of OnChange has not
  -- followed yet. A Refresh reads the catalog while other upstreams may be changing: what it reads
  -- of an upstream with such a change may be the old or the new list, and what it reads of any other
  -- one is the list that the catalog has.
  pub data History (limits : Limits) (cfg : BreakerConfig) (nss : List Namespace)
      : (Text → Option (List Tool)) → List Text → Gateway → Type 0 where
    -- New, with a supervisor that has not been started
    built :
        (catalog : Text → Option (List Tool))
        → ((j : Text) → (catalog j ≡ none) ⊎ (catalog j ≡ some []))
        → History limits cfg nss catalog [] (new_gateway limits cfg nss)
    changed :
        {old : Text → Option (List Tool)} {pending : List Text} {g : Gateway} (id : Text)
        (new : Text → Option (List Tool))
        → History limits cfg nss old pending g
        → ((j : Text) → text_eq id j ≡ false → new j ≡ old j)
        → History limits cfg nss new (id ∷ pending) g
    refreshed :
        {catalog : Text → Option (List Tool)} {g : Gateway} (before : List Text) (id : Text)
        (after : List Text) (read : Text → Option (List Tool))
        → History limits cfg nss catalog (before ++ id ∷ after) g
        → ((j : Text) → lists j (before ++ after) ≡ false → read j ≡ catalog j)
        → AllDistinct read g.servers
        → History limits cfg nss catalog (before ++ after) (refresh marshal read id g)
    refreshed_all :
        {catalog : Text → Option (List Tool)} {pending : List Text} {g : Gateway}
        (read : Text → Option (List Tool))
        → History limits cfg nss catalog pending g
        → ((j : Text) → lists j pending ≡ false → read j ≡ catalog j)
        → AllDistinct read g.servers
        → History limits cfg nss catalog pending (refresh_all marshal read g)

  -- A server follows what was read of its upstreams, which is what the catalog has where each change
  -- has been followed.
  abbrev Kept : (Text → Option (List Tool)) → List Text → Server → Type 0
  Kept catalog pending s =
      (read : Text → Option (List Tool)) × Follows read s
      × ((j : Text) → includes j s.ns ≡ true → lists j pending ≡ false → read j ≡ catalog j)

  abbrev AllKept : (Text → Option (List Tool)) → List Text → Entries → Type 0
  AllKept catalog pending entries = All (λ e. Kept catalog pending e.1) entries

  built-AllKept :
      (catalog : Text → Option (List Tool)) (entries : Entries)
      → ((j : Text) → (catalog j ≡ none) ⊎ (catalog j ≡ some []))
      → AllBlank entries
      → AllKept catalog [] entries
  built-AllKept catalog [] empty b = tt
  built-AllKept catalog (e ∷ entries) empty b = (
    (catalog, blank-Follows catalog e.1 empty b.0, λ j has free. refl),
    built-AllKept catalog entries empty b.1,
  )

  changed-AllKept :
      (old new : Text → Option (List Tool)) (id : Text) (pending : List Text) (entries : Entries)
      → ((j : Text) → text_eq id j ≡ false → new j ≡ old j)
      → AllKept old pending entries
      → AllKept new (id ∷ pending) entries
  changed-AllKept old new id pending [] agree h = tt
  changed-AllKept old new id pending (e ∷ entries) agree h =
      let (read, follows, same) = h.0 in
      (
        (
          read,
          follows,
          λ j has free.
              let (other, rest) = apart (text_eq id j) (lists j pending) free in
              same j has rest ∙ sym (agree j other),
        ),
        changed-AllKept old new id pending entries agree h.1,
      )

  -- a server without the upstream keeps what it has when the Refresh of this upstream is done
  passed-Kept :
      (catalog : Text → Option (List Tool)) (before : List Text) (id : Text) (after : List Text)
      (s : Server)
      → includes id s.ns ≡ false
      → Kept catalog (before ++ id ∷ after) s
      → Kept catalog (before ++ after) s
  passed-Kept catalog before id after s out (read, follows, same) =
      (read, follows, λ j has free. same j has (still_free j before free (other j has)))
    where
      other : (j : Text) → includes j s.ns ≡ true → text_eq id j ≡ false
      other j has = elim (Bool-cases (text_eq id j)) [
        | inl equal ↦
            absurd
              (false-true (sym out ∙ ap (λ k. includes k s.ns) (text_eq_sound id j equal) ∙ has))
        | inr different ↦ different
      ]

      still_free :
          (j : Text) (before : List Text)
          → lists j (before ++ after) ≡ false
          → text_eq id j ≡ false
          → lists j (before ++ id ∷ after) ≡ false
      still_free j [] free different = ground arith
      still_free j (b ∷ before) free different = ground (arith, still_free j before)

  refreshed-AllKept :
      (catalog read : Text → Option (List Tool)) (before : List Text) (id : Text)
      (after : List Text) (entries : Entries)
      → ((j : Text) → lists j (before ++ after) ≡ false → read j ≡ catalog j)
      → AllDistinct read entries
      → AllKept catalog (before ++ id ∷ after) entries
      → AllKept catalog (before ++ after) (refresh_servers marshal read id entries)
  unfolding refresh_servers
  refreshed-AllKept catalog read before id after [] same d h = tt
  refreshed-AllKept catalog read before id after ((name, s) ∷ entries) same d h = (
    elim (Bool-cases (includes id s.ns)) [
      | inl has ↦ rw has (read, synced-Follows h.0.0 read s d.0 h.0.1, λ j there free. same j free)
      | inr out ↦ rw out (passed-Kept catalog before id after s out h.0)
    ],
    refreshed-AllKept catalog read before id after entries same d.1 h.1,
  )

  all-AllKept :
      (catalog read : Text → Option (List Tool)) (pending : List Text) (entries : Entries)
      → ((j : Text) → lists j pending ≡ false → read j ≡ catalog j)
      → AllDistinct read entries
      → AllKept catalog pending entries
      → AllKept catalog pending (map (λ e. (e.0, synced marshal read e.1)) entries)
  all-AllKept catalog read pending [] same d h = tt
  all-AllKept catalog read pending (e ∷ entries) same d h = (
    (read, synced-Follows h.0.0 read e.1 d.0 h.0.1, λ j has free. same j free),
    all-AllKept catalog read pending entries same d.1 h.1,
  )

  History-AllKept :
      {limits : Limits} {cfg : BreakerConfig} {nss : List Namespace}
      (catalog : Text → Option (List Tool)) (pending : List Text) (g : Gateway)
      → History limits cfg nss catalog pending g
      → AllKept catalog pending g.servers
  unfolding refresh_all refresh new_gateway
  History-AllKept {limits} {cfg} {nss} catalog pending g (built c empty) =
      built-AllKept c (new_gateway limits cfg nss).servers empty
        (add_namespaces-AllBlank limits cfg nss _ tt)
  History-AllKept catalog pending g (changed id new h agree) =
      changed-AllKept _ new id _ _ agree (History-AllKept _ _ _ h)
  History-AllKept catalog pending g (refreshed before id after read h same d) =
      refreshed-AllKept _ read before id after _ same d (History-AllKept _ _ _ h)
  History-AllKept catalog pending g (refreshed_all read h same d) =
      all-AllKept _ read _ _ same d (History-AllKept _ _ _ h)

  -- In a run of the program in which upstreams change and their Refreshes are done in any order,
  -- each at any time after the change, with the RefreshAll of the start anywhere between them, and
  -- as long as the tools that a namespace wants have names of their own and texts that are not
  -- empty: when each change of an upstream of a namespace has been followed by its Refresh, the
  -- server of the namespace offers exactly the tools that its upstreams list now, each as it is
  -- wanted, or none in a mode without native tools.
  pub History-Follows :
      {limits : Limits} {cfg : BreakerConfig} {nss : List Namespace}
      (catalog : Text → Option (List Tool)) (pending : List Text) (g : Gateway) (name : Text)
      (s : Server)
      → History limits cfg nss catalog pending g
      → In (name, s) g.servers
      → ((j : Text) → includes j s.ns ≡ true → lists j pending ≡ false)
      → Follows catalog s
  History-Follows catalog pending g name s h i settled =
      let (read, follows, same) =
        All-lookup (λ e. Kept catalog pending e.1) (name, s) g.servers
          (History-AllKept catalog pending g h) i in
      agreeing-Follows read catalog s (λ j has. sym (same j has (settled j has))) follows
