-- ===== src/Redact/Clean.antt =====
-- What a redacted value holds (internal/redact/redact.go, `walk` and `redactString`).
use rusty_gateway.Common.{
  ℕ, zero, suc, ◌≤◌, ◌<◌, ◌≡◌, refl, Bool, true, false, some, arith, inl, inr, ◌⊎◌, Bool-cases,
  Option-cases,
}
use rusty_gateway.Common.Json.{
  Json, null, bool, num, str, arr, obj, Elems, nil, cons, Members, end, member,
}
use rusty_gateway.Common.Text.{Text}
use rusty_gateway.Redact.Pattern.{placeholder, key, scrub}
use rusty_gateway.Redact.{
  longest, longest_elem, longest_member, Codec, walk_with, walk_elems, walk_members, looks_nested,
  reencode, redact_string, walk,
}

-- Under a key that looks secret stands the placeholder, at every level, and each other string is
-- allowed by P.
mutual
  pub data Clean (P : Text → Type 0) : Json → Type 0 where
    a_null : Clean P null
    a_bool : (b : Bool) → Clean P (bool b)
    a_num : (n : Text) → Clean P (num n)
    a_str : (s : Text) → P s → Clean P (str s)
    an_arr : (xs : Elems) → CleanElems P xs → Clean P (arr xs)
    an_obj : (m : Members) → CleanMembers P m → Clean P (obj m)

  pub data CleanElems (P : Text → Type 0) : Elems → Type 0 where
    no_elem : CleanElems P nil
    an_elem : (v : Json) (xs : Elems) → Clean P v → CleanElems P xs → CleanElems P (cons v xs)

  pub data CleanMembers (P : Text → Type 0) : Members → Type 0 where
    no_member : CleanMembers P end
    secret :
        (k : Text) (m : Members)
        → key k ≡ true
        → CleanMembers P m
        → CleanMembers P (member k (str placeholder) m)
    plain :
        (k : Text) (v : Json) (m : Members)
        → key k ≡ false
        → Clean P v
        → CleanMembers P m
        → CleanMembers P (member k v m)

mutual
  unfolding longest walk_with

  walk_with-Clean :
      (P : Text → Type 0) (size : Text → ℕ) (f : Text → Text) (bound : ℕ)
      → ((s : Text) → size s ≤ bound → P (f s))
      → (v : Json) → longest size v ≤ bound
      → Clean P (walk_with f v)
  walk_with-Clean P size f bound p null h = a_null
  walk_with-Clean P size f bound p (bool b) h = a_bool b
  walk_with-Clean P size f bound p (num n) h = a_num n
  walk_with-Clean P size f bound p (str s) h = a_str (f s) (p s h)
  walk_with-Clean P size f bound p (arr xs) h =
      an_arr (walk_elems f xs) (walk_elems-CleanElems P size f bound p xs h)
  walk_with-Clean P size f bound p (obj m) h =
      an_obj (walk_members f m) (walk_members-CleanMembers P size f bound p m h)

  walk_elems-CleanElems :
      (P : Text → Type 0) (size : Text → ℕ) (f : Text → Text) (bound : ℕ)
      → ((s : Text) → size s ≤ bound → P (f s))
      → (xs : Elems) → longest_elem size xs ≤ bound
      → CleanElems P (walk_elems f xs)
  walk_elems-CleanElems P size f bound p nil h = no_elem
  walk_elems-CleanElems P size f bound p (cons v xs) h =
      an_elem (walk_with f v) (walk_elems f xs) (walk_with-Clean P size f bound p v (omega arith))
        (walk_elems-CleanElems P size f bound p xs (omega arith))

  walk_members-CleanMembers :
      (P : Text → Type 0) (size : Text → ℕ) (f : Text → Text) (bound : ℕ)
      → ((s : Text) → size s ≤ bound → P (f s))
      → (m : Members) → longest_member size m ≤ bound
      → CleanMembers P (walk_members f m)
  walk_members-CleanMembers P size f bound p end h = no_member
  walk_members-CleanMembers P size f bound p (member k v m) h = elim (Bool-cases (key k)) [
    | inl hidden ↦ rw hidden (
        secret k (walk_members f m) hidden
          (walk_members-CleanMembers P size f bound p m (omega arith)))
    | inr shown ↦ rw shown (
        plain k (walk_with f v) (walk_members f m) shown
          (walk_with-Clean P size f bound p v (omega arith))
          (walk_members-CleanMembers P size f bound p m (omega arith)))
  ]

module _ (codec : Codec) where
  -- A string that may stand in a log: a scrubbed text, or the encoding of a clean value whose
  -- strings may stand there too. The number bounds how deep documents are nested.
  unfoldable pub Loggable : ℕ → Text → Type 0
  Loggable zero s = ⊥
  Loggable (suc n) s =
      ((t : Text) × (s ≡ scrub t))
      ⊎ ((v : Json) × Clean (Loggable n) v × (codec.marshal v ≡ some s))

  redact_string-Loggable :
      (n : ℕ) (f : Json → Json) (s : Text)
      → ((v : Json) → codec.unmarshal s ≡ some v → Clean (Loggable n) (f v))
      → Loggable (suc n) (redact_string codec f s)
  unfolding redact_string Loggable
  redact_string-Loggable n f s inner = elim (Bool-cases (looks_nested s)) [
    | inr flat ↦ rw flat (inl (s, refl))
    | inl nested ↦ elim (Option-cases (codec.unmarshal s)) [
      | inl invalid ↦ rw (nested, invalid, reencode) (inl (s, refl))
      | inr (v, decoded) ↦ elim (Option-cases (codec.marshal (f v))) [
        | inl failed ↦ rw (nested, decoded, reencode, failed) (inl (s, refl))
        | inr (enc, done) ↦ rw (nested, decoded, reencode, done) (inr (f v, inner v decoded, done))
      ]
    ]
  ]

  -- The walk of a value, with more fuel than the code points of its longest string, leaves the
  -- placeholder under every key that looks secret, at every level and in the documents nested in
  -- strings too; every other string is a scrubbed text or the encoding of such a clean value.
  pub walk-Clean :
      (n : ℕ) (v : Json) → longest codec.runes v < n → Clean (Loggable n) (walk codec n v)
  unfolding walk
  walk-Clean zero v h = elim h [ ]
  walk-Clean (suc n) v h =
      walk_with-Clean (Loggable (suc n)) codec.runes (redact_string codec (walk codec n))
        (longest codec.runes v)
        (λ s small. redact_string-Loggable n (walk codec n) s λ inner decoded.
          let less = codec.shrinks s inner decoded in walk-Clean n inner (omega arith))
        v (omega arith)
