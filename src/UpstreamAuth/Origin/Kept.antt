-- ===== src/UpstreamAuth/Origin/Kept.antt =====
-- The headers of an upstream go to its own origin only (internal/upstreamauth/manager.go,
-- `RoundTrip`).
use rusty_gateway.Common.{
  ◌≡◌, refl, ap, ◌∙◌, Bool, true, false, Option, none, some, List, [], ◌∷◌, ◌⊎◌, inl, inr,
  if◌then◌else◌, Bool-cases, Assoc, lookup, insert, lookup-insert,
}
use rusty_gateway.Common.Text.{Text, text_eq, text_eq_sound}
use rusty_gateway.UpstreamAuth.Origin.{Origin, HttpRequest, same_origin, set_headers, round_trip}

abbrev pub or_else : Option Text → Option Text → Option Text
or_else none y = y
or_else (some x) y = some x

module _ (canonical : Text → Text) where
  -- the last value that the headers have for a canonical name
  abbrev pub value_for : Text → List (Text × Text) → Option Text
  value_for name [] = none
  value_for name ((k, v) ∷ more) =
      or_else (value_for name more) (if text_eq (canonical k) name then some v else none)

  inserted :
      (k v name : Text) (headers : Assoc Text)
      → lookup name (insert k v headers)
        ≡ or_else (if text_eq k name then some v else none) (lookup name headers)
  inserted k v name headers = lookup-insert k name v headers ∙ cases (text_eq k name)
    where
      cases :
          (b : Bool)
          → (if b then some v else lookup name headers)
            ≡ or_else (if b then some v else none) (lookup name headers)
      cases true = refl
      cases false = refl

  set_headers-lookup :
      (name : Text) (more : List (Text × Text)) (headers : Assoc Text)
      → lookup name (set_headers canonical more headers)
        ≡ or_else (value_for name more) (lookup name headers)
  unfolding set_headers
  set_headers-lookup name [] headers = refl
  set_headers-lookup name ((k, v) ∷ more) headers =
      set_headers-lookup name more (insert (canonical k) v headers)
      ∙ ap (or_else (value_for name more)) (inserted (canonical k) v name headers)
      ∙ sym_assoc (value_for name more) (if text_eq (canonical k) name then some v else none)
          (lookup name headers)
    where
      sym_assoc : (x y z : Option Text) → or_else x (or_else y z) ≡ or_else (or_else x y) z
      sym_assoc none y z = refl
      sym_assoc (some x) y z = refl

  -- A request to any other origin is passed on as it is, so no header of the upstream reaches it.
  -- One to the upstream's own origin keeps its origin and its body; under the names of the
  -- upstream's headers it has their values, and under any other name what it had.
  pub round_trip-origin :
      (o : Origin) (headers : List (Text × Text)) (r : HttpRequest)
      → ((round_trip canonical o headers r ≡ r)
          × (((text_eq r.origin.scheme o.scheme ≡ false) ⊎ (text_eq r.origin.host o.host ≡ false))))
        ⊎ ((r.origin.scheme ≡ o.scheme)
            × (r.origin.host ≡ o.host)
            × ((round_trip canonical o headers r).origin ≡ r.origin)
            × ((round_trip canonical o headers r).rest ≡ r.rest)
            × ((name : Text)
                → lookup name (round_trip canonical o headers r).headers
                  ≡ or_else (value_for name headers) (lookup name r.headers)))
  unfolding round_trip same_origin
  round_trip-origin o headers r = elim (Bool-cases (text_eq r.origin.scheme o.scheme)) [
    | inr other ↦ inl (rw other refl, inl other)
    | inl scheme ↦ elim (Bool-cases (text_eq r.origin.host o.host)) [
      | inr other ↦ inl (rw (scheme, other) refl, inr other)
      | inl host ↦ inr (
        text_eq_sound r.origin.scheme o.scheme scheme,
        text_eq_sound r.origin.host o.host host,
        rw (scheme, host) refl,
        rw (scheme, host) refl,
        λ name. rw (scheme, host) (set_headers-lookup name headers r.headers),
      )
    ]
  ]
