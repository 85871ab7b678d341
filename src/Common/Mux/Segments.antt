-- ===== src/Common/Mux/Segments.antt =====
-- The segments of paths that a program puts together from names.
use mathlib.Core.Bool.{Bool, true, ◌&&◌, not}
use mathlib.Core.Path.{◌≡◌, refl}
use mathlib.Core.Logic.{inl, inr}
use mathlib.Core.List.{[], ◌∷◌, ◌++◌}
use rusty_gateway.Common.Tests.{◌==◌, Bool-cases, false-true}
use rusty_gateway.Common.Text.{Text}
use rusty_gateway.Common.Mux.{segments_from}

-- no slash in a name
abbrev pub is_one_segment : Text → Bool
is_one_segment [] = true
is_one_segment (c ∷ s) = not (c == b'/') && is_one_segment s

pub segments_from-one : (s : Text) → is_one_segment s ≡ true → segments_from s ≡ (s, [])
unfolding segments_from
segments_from-one [] h = refl
segments_from-one (c ∷ s) h = elim (Bool-cases (c == b'/')) [
  | inl slash ↦ absurd (false-true (rw slash at h))
  | inr other ↦ rw (other, segments_from-one s (rw other at h)) refl
]

pub segments_from-slash :
    (s t : Text)
    → is_one_segment s ≡ true
    → segments_from (s ++ b'/' ∷ t) ≡ (s, (segments_from t).0 ∷ (segments_from t).1)
unfolding segments_from
segments_from-slash [] t h = refl
segments_from-slash (c ∷ s) t h = elim (Bool-cases (c == b'/')) [
  | inl slash ↦ absurd (false-true (rw slash at h))
  | inr other ↦ rw (other, segments_from-slash s t (rw other at h)) refl
]
