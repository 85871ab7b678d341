-- ===== src/Dashboard/Stream/Lines.antt =====
-- The lines of a fragment (internal/ui/datastar.go).
use rusty_gateway.Common.{
  ℕ, ◌≡◌, refl, sym, ap, ◌∙◌, Bool, true, false, List, [], ◌∷◌, ◌&&◌, not, ◌==◌, is_nil, all, All,
  arith, Bool-cases, false-true, inl, inr,
}
use rusty_gateway.Common.Text.{Text}
use rusty_gateway.Common.Text.Search.{join}
use rusty_gateway.Dashboard.Stream.{
  newline, carriage_return, trim_newlines, onto_first, split_lines,
}

-- no carriage return
abbrev pub no_return : Text → Bool
no_return s = all (λ c. not (c == carriage_return)) s

-- neither of the characters that end a line
abbrev pub plain : Text → Bool
plain s = all (λ c. not (c == newline) && not (c == carriage_return)) s

pub both : (a b : Bool) → a && b ≡ true → (a ≡ true) × (b ≡ true)
both true b h = (refl, h)
both false b h = absurd (false-true h)

onto_first-plain :
    (c : ℕ) (ls : List Text)
    → not (c == newline) && not (c == carriage_return) ≡ true
    → All (λ l. plain l ≡ true) ls
    → All (λ l. plain l ≡ true) (onto_first c ls)
onto_first-plain c [] h all_plain = (rw h refl, tt)
onto_first-plain c (l ∷ ls) h all_plain = (rw h all_plain.0, all_plain.1)

-- the lines of a text are plain, and the text is their join
pub split_lines-plain : (s : Text) → no_return s ≡ true → All (λ l. plain l ≡ true) (split_lines s)
unfolding split_lines
split_lines-plain [] h = (refl, tt)
split_lines-plain (c ∷ s) h =
    let (here, more) = both (not (c == carriage_return)) (no_return s) h in
    elim (Bool-cases (c == newline)) [
      | inl ends ↦ rw ends (refl, split_lines-plain s more)
      | inr other ↦
          rw other (onto_first-plain c (split_lines s) (rw other here) (split_lines-plain s more))
    ]

pub split_lines-full : (s : Text) → is_nil (split_lines s) ≡ false
unfolding split_lines
split_lines-full [] = refl
split_lines-full (c ∷ s) = elim (Bool-cases (c == newline)) [
  | inl ends ↦ rw ends refl
  | inr other ↦ rw other (onto (split_lines s))
]
  where
    onto : (ls : List Text) → is_nil (onto_first c ls) ≡ false
    onto [] = refl
    onto (l ∷ ls) = refl

join-onto_first :
    (c : ℕ) (ls : List Text)
    → is_nil ls ≡ false
    → join (newline ∷ []) (onto_first c ls) ≡ c ∷ join (newline ∷ []) ls
unfolding join
join-onto_first c [] h = absurd (false-true (sym h))
join-onto_first c (l ∷ []) h = refl
join-onto_first c (l ∷ k ∷ ls) h = refl

join-empty_first :
    (ls : List Text)
    → is_nil ls ≡ false
    → join (newline ∷ []) ([] ∷ ls) ≡ newline ∷ join (newline ∷ []) ls
unfolding join
join-empty_first [] h = absurd (false-true (sym h))
join-empty_first (l ∷ ls) h = refl

pub join-split_lines : (s : Text) → join (newline ∷ []) (split_lines s) ≡ s
unfolding split_lines join
join-split_lines [] = refl
join-split_lines (c ∷ s) = elim (Bool-cases (c == newline)) [
  | inl ends ↦ rw ends (
      join-empty_first (split_lines s) (split_lines-full s)
      ∙ ap (λ t. newline ∷ t) (join-split_lines s)
      ∙ ap (λ d. d ∷ s) (ground (arith, ends)))
  | inr other ↦ rw other (
      join-onto_first c (split_lines s) (split_lines-full s) ∙ ap (λ t. c ∷ t) (join-split_lines s))
]

pub no_return-trim_newlines : (s : Text) → no_return s ≡ true → no_return (trim_newlines s) ≡ true
unfolding trim_newlines
no_return-trim_newlines [] h = refl
no_return-trim_newlines (c ∷ s) h =
    let (here, more) = both (not (c == carriage_return)) (no_return s) h in
    elim (Bool-cases (is_nil (trim_newlines s) && c == newline)) [
      | inl ends ↦ rw ends refl
      | inr other ↦ rw (other, here) (no_return-trim_newlines s more)
    ]
