-- ===== src/Redact.antt =====
-- Redaction of JSON payloads (internal/redact/redact.go). A text is its UTF-8 bytes. The
-- encoding/json package is the parameter `codec`.
pub mod Pattern
pub mod Scrubbed
pub mod Fuel
pub mod Clean
mod Tests
use rusty_gateway.Common.{
  ℕ, zero, suc, ◌+◌, ◌≤◌, ◌<◌, ◌≡◌, Bool, true, false, ◌&&◌, ◌||◌, Option, none, some, List, [],
  ◌∷◌, ◌++◌, length, take, max, ltb, ◌==◌, if◌then◌else◌,
}
use rusty_gateway.Common.Int.{ℤ, pos, negsuc}
use rusty_gateway.Common.Json.{
  Json, null, bool, num, str, arr, obj, Elems, nil, cons, Members, end, member,
}
use rusty_gateway.Common.Text.{Text, codes}
use Pattern.{placeholder, key, scrub}

unfoldable mutual
  -- the size of the largest string in a value, keys not counted
  pub longest : (Text → ℕ) → Json → ℕ
  longest size null = 0
  longest size (bool b) = 0
  longest size (num n) = 0
  longest size (str s) = size s
  longest size (arr xs) = longest_elem size xs
  longest size (obj m) = longest_member size m

  pub longest_elem : (Text → ℕ) → Elems → ℕ
  longest_elem size nil = 0
  longest_elem size (cons v xs) = max (longest size v) (longest_elem size xs)

  pub longest_member : (Text → ℕ) → Members → ℕ
  longest_member size end = 0
  longest_member size (member k v m) = max (longest size v) (longest_member size m)

-- What the code relies on of encoding/json. `runes` is utf8.RuneCountInString: a decoded string has
-- fewer code points than the document that it stands in, since its quotes are gone.
pub record Codec : Type 0 where
  pub unmarshal : Text → Option Json
  pub marshal : Json → Option Text
  pub runes : Text → ℕ
  pub shrinks : (s : Text) (v : Json) → unmarshal s ≡ some v → longest runes v < runes s

-- `walk`, with what it does to a string as an argument
unfoldable mutual
  pub walk_with : (Text → Text) → Json → Json
  walk_with f null = null
  walk_with f (bool b) = bool b
  walk_with f (num n) = num n
  walk_with f (str s) = str (f s)
  walk_with f (arr xs) = arr (walk_elems f xs)
  walk_with f (obj m) = obj (walk_members f m)

  pub walk_elems : (Text → Text) → Elems → Elems
  walk_elems f nil = nil
  walk_elems f (cons v xs) = cons (walk_with f v) (walk_elems f xs)

  pub walk_members : (Text → Text) → Members → Members
  walk_members f end = end
  walk_members f (member k v m) =
      if key k
      then member k (str placeholder) (walk_members f m)
      else member k (walk_with f v) (walk_members f m)

-- len(s) > 1 && (s[0] == '{' || s[0] == '[')
unfoldable pub looks_nested : Text → Bool
looks_nested [] = false
looks_nested (c ∷ []) = false
looks_nested (c ∷ d ∷ s) = c == b'{' || c == b'['

module _ (codec : Codec) where
  open codec use {unmarshal, marshal}

  -- the encoded form of a nested document, or the scrubbed text
  or_scrub : Text → Option Text → Text
  or_scrub s none = scrub s
  or_scrub s (some enc) = enc

  reencode : (Json → Json) → Option Json → Option Text
  reencode walk_inner none = none
  reencode walk_inner (some inner) = marshal (walk_inner inner)

  -- `redactString`, with the `walk` of a nested document as an argument
  unfoldable pub redact_string : (Json → Json) → Text → Text
  unfolding or_scrub reencode
  redact_string walk_inner s =
      if looks_nested s then or_scrub s (reencode walk_inner (unmarshal s)) else scrub s

  -- `walk`; the fuel bounds how deep documents are nested in strings
  unfoldable pub walk : ℕ → Json → Json
  walk zero v = v
  walk (suc fuel) v = walk_with (redact_string (walk fuel)) v

  -- The document to redact: text that is no JSON is one string.
  unfoldable pub document : Text → Json
  document raw = elim (unmarshal raw) [ none ↦ str raw | some v ↦ v ]

  unfoldable pub encoded : Text → Text
  unfolding walk document
  encoded raw =
      let v = document raw in
      elim (marshal (walk (suc (longest codec.runes v)) v)) [
        | none ↦ codes "\"" ++ (placeholder ++ codes "\"")
        | some enc ↦ enc
      ]

  -- `JSON`; "…" is three bytes
  unfoldable pub redact_json : Text → ℤ → Text × ℕ
  unfolding encoded
  redact_json raw (negsuc n) = (encoded raw, length (encoded raw))
  redact_json raw (pos limit) =
      let enc = encoded raw in
      if ltb 0 limit && ltb limit (length enc)
      then (take limit enc ++ 0xE2 ∷ 0x80 ∷ 0xA6 ∷ [], length enc)
      else (enc, length enc)
