-- ===== src/Config/Expand/Segments.antt =====
-- What expansion makes of a text (internal/config/config.go, `expandOne`).
use rusty_gateway.Common.{
  ℕ, suc, ◌+◌, ◌≡◌, refl, ap, ◌∙◌, true, false, Option, none, some, List, [], ◌∷◌, ◌++◌, length,
  All, arith, all, ◌==◌,
}
use rusty_gateway.Common.Text.{Text}
use rusty_gateway.Config.Expand.{
  is_first, is_rest, rest_name, reference, value_of, missing_of, expand_from, expand_one,
}

-- A piece of a text: a byte that is no '$', or a reference ${...} to a name.
pub data Segment : Type 0 where
  byte : ℕ → Segment
  variable : ℕ → Text → Segment

-- A byte is no '$', and a name is a letter or '_', then letters, digits and '_'.
abbrev pub IsSegment : Segment → Type 0
IsSegment (byte c) = (c == b'$') ≡ false
IsSegment (variable c name) = (is_first c ≡ true) × (all is_rest name ≡ true)

abbrev pub segment_text : Segment → Text
segment_text (byte c) = c ∷ []
segment_text (variable c name) = b'$' ∷ b'{' ∷ c ∷ (name ++ b'}' ∷ [])

abbrev pub source_of : List Segment → Text
source_of [] = []
source_of (g ∷ gs) = segment_text g ++ source_of gs

module _ (env : Text → Option Text) where
  abbrev pub segment_value : Segment → Text
  segment_value (byte c) = c ∷ []
  segment_value (variable c name) = value_of (env (c ∷ name))

  abbrev pub values_of : List Segment → Text
  values_of [] = []
  values_of (g ∷ gs) = segment_value g ++ values_of gs

  abbrev pub unset_names : List Segment → List Text
  unset_names [] = []
  unset_names (byte c ∷ gs) = unset_names gs
  unset_names (variable c name ∷ gs) = missing_of (c ∷ name) (env (c ∷ name)) ++ unset_names gs

  rest_name-closed :
      (name s : Text) → all is_rest name ≡ true → rest_name (name ++ b'}' ∷ s) ≡ some name
  unfolding rest_name is_rest is_first
  rest_name-closed [] s h = refl
  rest_name-closed (c ∷ name) s h = ground (arith, rest_name-closed name s)

  expand_from-skip : (p s : Text) → expand_from env (length p) (p ++ s) ≡ expand_from env 0 s
  unfolding expand_from
  expand_from-skip [] s = refl
  expand_from-skip (c ∷ p) s = expand_from-skip p s

  reference-variable :
      (c : ℕ) (name s : Text)
      → is_first c ≡ true
      → all is_rest name ≡ true
      → reference (b'$' ∷ b'{' ∷ c ∷ (name ++ b'}' ∷ s)) ≡ some (c ∷ name)
  unfolding reference
  reference-variable c name s first rest = rw (first, rest_name-closed name s rest) refl

  reference-byte : (c : ℕ) (s : Text) → (c == b'$') ≡ false → reference (c ∷ s) ≡ none
  unfolding reference
  reference-byte c [] h = refl
  reference-byte c (d ∷ s) h = rw h refl

  expand_from-byte :
      (c : ℕ) (s : Text)
      → reference (c ∷ s) ≡ none
      → expand_from env 0 (c ∷ s) ≡ (c ∷ (expand_from env 0 s).0, (expand_from env 0 s).1)
  unfolding expand_from
  expand_from-byte c s h = rw (h, expand_from) refl

  past_name :
      (name s : Text) → expand_from env (suc (length name)) (name ++ b'}' ∷ s) ≡ expand_from env 0 s
  unfolding expand_from
  past_name [] s = refl
  past_name (c ∷ name) s = past_name name s

  three : (n : ℕ) → suc n + 2 ≡ suc (suc (suc n))
  three n = omega arith

  -- the text after the '$' of a reference is left out
  after_reference :
      (c : ℕ) (name s : Text)
      → expand_from env (length (c ∷ name) + 2) (b'{' ∷ c ∷ (name ++ b'}' ∷ s))
        ≡ expand_from env 0 s
  unfolding expand_from
  after_reference c name s = rw (three (length name)) (past_name name s)

  expand_from-variable :
      (c : ℕ) (name s : Text)
      → is_first c ≡ true
      → all is_rest name ≡ true
      → expand_from env 0 (b'$' ∷ b'{' ∷ c ∷ (name ++ b'}' ∷ s)) ≡ (
        value_of (env (c ∷ name)) ++ (expand_from env 0 s).0,
        missing_of (c ∷ name) (env (c ∷ name)) ++ (expand_from env 0 s).1,
      )
  unfolding expand_from
  expand_from-variable c name s first rest =
      rw (reference-variable c name s first rest, expand_from, after_reference c name s) refl

  source-append : (name s : Text) → (name ++ b'}' ∷ []) ++ s ≡ name ++ b'}' ∷ s
  source-append [] s = refl
  source-append (c ∷ name) s = ap (λ l. c ∷ l) (source-append name s)

  -- A text that is made of bytes other than '$' and of references ${NAME} becomes the bytes and
  -- the values of the variables, in their order, with nothing for a variable that is not set; and
  -- the names that are reported as missing are exactly those not set, in their order.
  pub expand_one-segments :
      (gs : List Segment)
      → All IsSegment gs
      → expand_one env (source_of gs) ≡ (values_of gs, unset_names gs)
  unfolding expand_one
  expand_one-segments [] h = unfold expand_from in refl
  expand_one-segments (byte c ∷ gs) h =
      expand_from-byte c (source_of gs) (reference-byte c (source_of gs) h.0)
      ∙ ap (λ r. (c ∷ r.0, r.1)) (expand_one-segments gs h.1)
  expand_one-segments (variable c name ∷ gs) h = rw (source-append name (source_of gs)) (
      expand_from-variable c name (source_of gs) h.0.0 h.0.1
      ∙ ap (λ r. (value_of (env (c ∷ name)) ++ r.0, missing_of (c ∷ name) (env (c ∷ name)) ++ r.1))
          (expand_one-segments gs h.1))
