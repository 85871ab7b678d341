-- ===== src/Redact/Scrubbed.antt =====
-- What `scrub` leaves of a text (internal/redact/redact.go, `redactString`), and that the fuel of
-- `walk` is enough.
use rusty_gateway.Common.{
  ℕ, zero, suc, ◌≤◌, ◌<◌, ◌≡◌, refl, [], ◌∷◌, ◌++◌, arith, inl, inr, ℕ-cases,
}
use rusty_gateway.Common.Text.{Text}
use rusty_gateway.Redact.Pattern.{
  placeholder, is_base64, run, match_secret, first_match, scrub_from, scrub,
}

-- Every run of [A-Za-z0-9+/=_-] in a text is shorter than 40 bytes.
abbrev pub ShortRuns : Text → Type 0
ShortRuns [] = Unit
ShortRuns (c ∷ s) = (run is_base64 (c ∷ s) < 40) × ShortRuns s

first_match-zero : (a b : ℕ) → first_match a b ≡ 0 → b ≡ 0
unfolding first_match
first_match-zero zero b h = h
first_match-zero (suc a) b h = absurd (omega arith)

unmatched_run : (prev : ℕ) (s : Text) → match_secret prev s ≡ 0 → run is_base64 s < 40
unfolding match_secret
unmatched_run prev s h =
    let last =
      first_match-zero _ _ (first_match-zero _ _ (first_match-zero _ _ (first_match-zero _ _ h))) in
    ground (arith, last)

-- What follows a placeholder does not make its runs longer.
placeholder-ShortRuns : (s : Text) → ShortRuns s → ShortRuns (placeholder ++ s)
unfolding run is_base64
placeholder-ShortRuns s h = (
  omega arith,
  (
    omega arith,
    (
      omega arith,
      (
        omega arith,
        (
          omega arith,
          (
            omega arith,
            (
              omega arith,
              (omega arith, (omega arith, (omega arith, (omega arith, (omega arith, h))))),
            ),
          ),
        ),
      ),
    ),
  ),
)

run-placeholder : (s : Text) → run is_base64 (placeholder ++ s) ≡ 0
unfolding run is_base64
run-placeholder s = refl

scrub_from-unmatched :
    (prev c : ℕ) (s : Text)
    → match_secret prev (c ∷ s) ≡ 0
    → scrub_from 0 prev (c ∷ s) ≡ c ∷ scrub_from 0 c s
unfolding scrub_from
scrub_from-unmatched prev c s h = rw (h, scrub_from)

scrub_from-matched :
    (prev c n : ℕ) (s : Text)
    → match_secret prev (c ∷ s) ≡ suc n
    → scrub_from 0 prev (c ∷ s) ≡ placeholder ++ scrub_from n c s
unfolding scrub_from
scrub_from-matched prev c n s h = rw (h, scrub_from)

run-scrub_from : (prev : ℕ) (s : Text) → run is_base64 (scrub_from 0 prev s) ≤ run is_base64 s
unfolding run
run-scrub_from prev [] = unfold scrub_from in omega arith
run-scrub_from prev (c ∷ s) = elim (ℕ-cases (match_secret prev (c ∷ s))) [
  | inl no_match ↦ rw (scrub_from-unmatched prev c s no_match) (ground (arith, run-scrub_from c s))
  | inr (n, found) ↦
      rw (scrub_from-matched prev c n s found) (omega (arith, run-placeholder (scrub_from n c s)))
]

scrubbed_run :
    (prev c : ℕ) (s : Text)
    → match_secret prev (c ∷ s) ≡ 0
    → run is_base64 (c ∷ scrub_from 0 c s) < 40
unfolding run
scrubbed_run prev c s no_match =
    ground (arith, unmatched_run prev (c ∷ s) no_match, run-scrub_from c s)

scrub_from-ShortRuns : (skip prev : ℕ) (s : Text) → ShortRuns (scrub_from skip prev s)
unfolding scrub_from
scrub_from-ShortRuns zero prev [] = tt
scrub_from-ShortRuns (suc skip) prev [] = tt
scrub_from-ShortRuns (suc skip) prev (c ∷ s) = scrub_from-ShortRuns skip c s
scrub_from-ShortRuns zero prev (c ∷ s) = elim (ℕ-cases (match_secret prev (c ∷ s))) [
  | inl no_match ↦
      rw (scrub_from-unmatched prev c s no_match)
        (scrubbed_run prev c s no_match, scrub_from-ShortRuns 0 c s)
  | inr (n, found) ↦
      rw (scrub_from-matched prev c n s found)
        (placeholder-ShortRuns (scrub_from n c s) (scrub_from-ShortRuns n c s))
]

-- A scrubbed text has no run of 40 or more base64 characters left, wherever it stood.
pub scrub-ShortRuns : (s : Text) → ShortRuns (scrub s)
unfolding scrub
scrub-ShortRuns s = scrub_from-ShortRuns 0 0 s
