-- ===== src/Gateway/Discovery/Sync/Following.antt =====
-- After a sync a namespace offers exactly what the catalog wants (internal/gateway/gateway.go,
-- `syncLocked`).
use rusty_gateway.Common.{
  ◌≡◌, refl, true, false, Option, none, some, List, [], ◌∷◌, arith, is_nil, inl, inr, Bool-cases,
  Option-cases, Assoc, lookup, insert, lookup-insert, lookup-remove, ap, sym, ◌∙◌, if◌then◌else◌,
}
use rusty_gateway.Common.Text.{Text, text_eq, text_eq_iff}
use rusty_gateway.Gateway.Discovery.Sync.{
  Registered, NsServer, Wanted, unchanged, offer, drop_stale, sync,
}

abbrev pub encoded_of : Option Registered → Option Text
encoded_of none = none
encoded_of (some r) = some r.encoded

abbrev or_else : Option Text → Option Text → Option Text
or_else none y = y
or_else (some x) y = some x

-- The text that the catalog wants for a name: the specification of a sync.
unfoldable pub wanted_text : Text → List Wanted → Option Text
wanted_text name [] = none
wanted_text name ((k, r) ∷ ws) = if text_eq k name then some r.encoded else wanted_text name ws

-- Every tool has a name of its own and a text that is not empty.
abbrev pub Distinct : List Wanted → Type 0
Distinct [] = Unit
Distinct ((k, r) ∷ ws) = (wanted_text k ws ≡ none) × (is_nil r.encoded ≡ false) × Distinct ws

-- The server offers what the map beside it says.
abbrev pub IsConsistent : NsServer → Type 0
IsConsistent s = (name : Text) → encoded_of (lookup name s.offered) ≡ lookup name s.registered

or_else-none : (o : Option Text) → or_else o none ≡ o
or_else-none none = refl
or_else-none (some x) = refl

-- what RemoveTools leaves of an offer
abbrev kept : Option Text → Option Text → Option Registered → Option Registered
kept (some e) registered offered = offered
kept none (some old) offered = none
kept none none offered = offered

unchanged_registered :
    (o : Option Text) (enc : Text) → is_nil enc ≡ false → unchanged o enc ≡ true → o ≡ some enc
unfolding unchanged text_eq
unchanged_registered none [] full same = cc
unchanged_registered none (c ∷ enc) full same = cc
unchanged_registered (some old) enc full same = ap some ((text_eq_iff old enc).0 same)

wanted_text-head :
    (k : Text) (r : Registered) (ws : List Wanted) → wanted_text k ((k, r) ∷ ws) ≡ some r.encoded
unfolding wanted_text
wanted_text-head k r ws = rw ((text_eq_iff k k).1 refl)

module _ (registered : Assoc Text) where
  -- in the loop: what is not yet wanted is offered as it was registered
  abbrev IsUnderWay : Assoc Text → Assoc Registered → Type 0
  IsUnderWay want offered =
      (name : Text)
      → encoded_of (lookup name offered) ≡ or_else (lookup name want) (lookup name registered)

  offer_one :
      (k : Text) (r : Registered) (want : Assoc Text) (offered : Assoc Registered)
      → is_nil r.encoded ≡ false
      → lookup k want ≡ none
      → IsUnderWay want offered
      → IsUnderWay
          (insert k r.encoded want)
          (if unchanged (lookup k registered) r.encoded then offered else insert k r offered)
  offer_one k r want offered full fresh h name =
      elim (Bool-cases (unchanged (lookup k registered) r.encoded)) [
        | inl same ↦ rw same (
            ground (
              arith,
              h name,
              lookup-insert k name r.encoded want,
              text_eq_iff k name,
              unchanged_registered (lookup k registered) r.encoded full same,
            ))
        | inr new ↦ rw new (
            ground (
              arith,
              h name,
              lookup-insert k name r.encoded want,
              lookup-insert k name r offered,
              text_eq_iff k name,
            ))
      ]

  -- none of the tools still to come is wanted yet
  abbrev IsFresh : List Wanted → Assoc Text → Type 0
  IsFresh ws want =
      (name : Text) (e : Text) → wanted_text name ws ≡ some e → lookup name want ≡ none

  IsFresh-insert :
      (k : Text) (r : Registered) (ws : List Wanted) (want : Assoc Text)
      → wanted_text k ws ≡ none
      → IsFresh ((k, r) ∷ ws) want
      → IsFresh ws (insert k r.encoded want)
  unfolding wanted_text
  IsFresh-insert k r ws want alone h name e found =
      ground (arith, h name e, lookup-insert k name r.encoded want, text_eq_iff k name)

  offer-IsUnderWay :
      (ws : List Wanted) (want : Assoc Text) (offered : Assoc Registered)
      → Distinct ws
      → IsFresh ws want
      → IsUnderWay want offered
      → IsUnderWay (offer registered ws (want, offered)).0 (offer registered ws (want, offered)).1
  unfolding offer
  offer-IsUnderWay [] want offered d fresh h = h
  offer-IsUnderWay ((k, r) ∷ ws) want offered d fresh h =
      offer-IsUnderWay ws (insert k r.encoded want) _ d.2 (IsFresh-insert k r ws want d.0 fresh)
        (offer_one k r want offered d.1 (fresh k r.encoded (wanted_text-head k r ws)) h)

  offer-wanted :
      (ws : List Wanted) (want : Assoc Text) (offered : Assoc Registered) (name : Text)
      → Distinct ws
      → IsFresh ws want
      → lookup name (offer registered ws (want, offered)).0
        ≡ or_else (wanted_text name ws) (lookup name want)
  unfolding offer wanted_text
  offer-wanted [] want offered name d fresh = refl
  offer-wanted ((k, r) ∷ ws) want offered name d fresh =
      offer-wanted ws (insert k r.encoded want) _ name d.2 (IsFresh-insert k r ws want d.0 fresh)
      ∙ ground (arith, lookup-insert k name r.encoded want, d.0, text_eq_iff k name)

drop_stale-lookup :
    (want registered : Assoc Text) (offered : Assoc Registered) (name : Text)
    → lookup name (drop_stale want registered offered)
      ≡ kept (lookup name want) (lookup name registered) (lookup name offered)
unfolding drop_stale lookup
drop_stale-lookup want [] offered name = ground arith
drop_stale-lookup want ((k, enc) ∷ registered) offered name = elim (Option-cases (lookup k want)) [
  | inl stale ↦
      drop_stale-lookup want registered _ name
      ∙ ground (arith, stale, lookup-remove k name offered, text_eq_iff k name)
  | inr (e, live) ↦
      drop_stale-lookup want registered _ name ∙ ground (arith, live, text_eq_iff k name)
]

module _ (ws : List Wanted) (s : NsServer) (d : Distinct ws) (c : IsConsistent s) where
  abbrev after_offer : Assoc Text × Assoc Registered
  after_offer = offer s.registered ws ([], s.offered)

  nothing_wanted : IsFresh s.registered ws []
  unfolding lookup
  nothing_wanted name e found = refl

  started : IsUnderWay s.registered [] s.offered
  unfolding lookup
  started = c

  want-lookup : (name : Text) → lookup name after_offer.0 ≡ wanted_text name ws
  unfolding lookup
  want-lookup name =
      offer-wanted s.registered ws [] s.offered name d nothing_wanted
      ∙ or_else-none (wanted_text name ws)

  offered-lookup :
      (name : Text)
      → encoded_of (lookup name (drop_stale after_offer.0 s.registered after_offer.1))
        ≡ wanted_text name ws
  offered-lookup name = ground (
    arith,
    drop_stale-lookup after_offer.0 s.registered after_offer.1 name,
    offer-IsUnderWay s.registered ws [] s.offered d nothing_wanted started name,
    want-lookup name,
  )

-- If the server offered what its map says, and the wanted tools have names of their own and texts
-- that are not empty, then after a sync it offers under every name exactly the text that the
-- catalog wants for that name, and nothing else, and the map says so again.
pub sync_exact :
    (ws : List Wanted) (s : NsServer)
    → Distinct ws
    → IsConsistent s
    → ((name : Text) → encoded_of (lookup name (sync ws s).offered) ≡ wanted_text name ws)
      × IsConsistent (sync ws s)
unfolding sync
sync_exact ws s d c = (
  offered-lookup ws s d c,
  λ name. offered-lookup ws s d c name ∙ sym (want-lookup ws s d c name),
)
