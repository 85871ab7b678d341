-- ===== src/Redact/Fuel.antt =====
-- The fuel of `walk` is enough (internal/redact/redact.go): documents nested in strings get shorter.
use rusty_gateway.Common.{
  ℕ, zero, suc, ◌≤◌, ◌<◌, ◌≡◌, refl, some, arith, inl, inr, Bool-cases, Option-cases, ap, ap₂,
}
use rusty_gateway.Common.Json.{
  Json, null, bool, num, str, arr, obj, Elems, nil, cons, Members, end, member,
}
use rusty_gateway.Common.Text.{Text}
use rusty_gateway.Redact.Pattern.{placeholder, key}
use rusty_gateway.Redact.{
  longest, longest_elem, longest_member, Codec, walk_with, walk_elems, walk_members, reencode,
  redact_string, walk,
}

mutual
  unfolding longest walk_with

  walk_with-ext :
      (size : Text → ℕ) (f g : Text → Text) (bound : ℕ)
      → ((s : Text) → size s ≤ bound → f s ≡ g s)
      → (v : Json) → longest size v ≤ bound
      → walk_with f v ≡ walk_with g v
  walk_with-ext size f g bound e null h = refl
  walk_with-ext size f g bound e (bool b) h = refl
  walk_with-ext size f g bound e (num n) h = refl
  walk_with-ext size f g bound e (str s) h = ap str (e s h)
  walk_with-ext size f g bound e (arr xs) h = ap arr (walk_elems-ext size f g bound e xs h)
  walk_with-ext size f g bound e (obj m) h = ap obj (walk_members-ext size f g bound e m h)

  walk_elems-ext :
      (size : Text → ℕ) (f g : Text → Text) (bound : ℕ)
      → ((s : Text) → size s ≤ bound → f s ≡ g s)
      → (xs : Elems) → longest_elem size xs ≤ bound
      → walk_elems f xs ≡ walk_elems g xs
  walk_elems-ext size f g bound e nil h = refl
  walk_elems-ext size f g bound e (cons v xs) h =
      ap₂ cons (walk_with-ext size f g bound e v (omega arith))
        (walk_elems-ext size f g bound e xs (omega arith))

  walk_members-ext :
      (size : Text → ℕ) (f g : Text → Text) (bound : ℕ)
      → ((s : Text) → size s ≤ bound → f s ≡ g s)
      → (m : Members) → longest_member size m ≤ bound
      → walk_members f m ≡ walk_members g m
  walk_members-ext size f g bound e end h = refl
  walk_members-ext size f g bound e (member k v m) h = elim (Bool-cases (key k)) [
    | inl secret ↦
        rw secret
          (ap (member k (str placeholder)) (walk_members-ext size f g bound e m (omega arith)))
    | inr plain ↦ rw plain (
        ap₂ (member k) (walk_with-ext size f g bound e v (omega arith))
          (walk_members-ext size f g bound e m (omega arith)))
  ]

module _ (codec : Codec) where
  redact_string-ext :
      (f g : Json → Json) (s : Text)
      → ((v : Json) → codec.unmarshal s ≡ some v → f v ≡ g v)
      → redact_string codec f s ≡ redact_string codec g s
  unfolding redact_string
  redact_string-ext f g s e = elim (Option-cases (codec.unmarshal s)) [
    | inl invalid ↦ rw (invalid, reencode)
    | inr (v, decoded) ↦ rw (decoded, reencode, e v decoded)
  ]

  -- More fuel than the code points of the longest string of a value changes nothing: the walk has
  -- gone down to the bottom of every document nested in it.
  pub walk_fuel :
      (n m : ℕ) (v : Json)
      → longest codec.runes v < n
      → longest codec.runes v < m
      → walk codec n v ≡ walk codec m v
  unfolding walk
  walk_fuel zero m v h k = elim h [ ]
  walk_fuel (suc n) zero v h k = elim k [ ]
  walk_fuel (suc n) (suc m) v h k =
      walk_with-ext codec.runes (redact_string codec (walk codec n))
        (redact_string codec (walk codec m)) (longest codec.runes v)
        (λ s small. redact_string-ext (walk codec n) (walk codec m) s λ inner decoded.
          let less = codec.shrinks s inner decoded in
          walk_fuel n m inner (omega arith) (omega arith))
        v (omega arith)
