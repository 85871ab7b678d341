-- ===== src/Common/Mux/Named.antt =====
-- Routes that a program registers in a loop, one for each of some names, where the path of a request
-- tells the name.
use mathlib.Core.Bool.{true, false, ◌&&◌}
use mathlib.Core.Path.{◌≡◌, refl, sym, ap, subst, ◌∙◌}
use mathlib.Core.Logic.{inl, inr}
use mathlib.Core.Option.{some}
use mathlib.Core.List.{List, [], ◌∷◌, ◌++◌, map}
use rusty_gateway.Common.Tests.{Bool-cases, false-true, if◌then◌else◌}
use rusty_gateway.Common.Lists.{All, In}
use rusty_gateway.Common.Text.{Text, text_eq, text_eq_sound, text_eq_refl}
use rusty_gateway.Common.Mux.{
  Pattern, Routes, path_matches, method_matches, candidates, best, best-copies,
}

module _ {H : Type 0} (method : Text) (path : List Text) where
  pub candidates-append :
      (xs ys : Routes H)
      → candidates method path (xs ++ ys) ≡ candidates method path xs ++ candidates method path ys
  unfolding candidates
  candidates-append [] ys = refl
  candidates-append ((p, e) ∷ xs) ys =
      elim (Bool-cases (path_matches p.segments p.subtree path && method_matches p.method method)) [
        | inl fits ↦ rw fits (ap (λ l. (p, e) ∷ l) (candidates-append xs ys))
        | inr other ↦ rw other (candidates-append xs ys)
      ]

  module _ (f : Text → Pattern × H) (name : Text) where
    -- the request matches the route of a name exactly if it is this name
    abbrev pub Tells : List Text → Type 0
    Tells names =
        All
          (λ m.
            path_matches (f m).0.segments (f m).0.subtree path
              && method_matches (f m).0.method method
            ≡ text_eq m name)
          names

    abbrev AreCopies : Routes H → Type 0
    AreCopies routes = All (λ x. x ≡ f name) routes

    candidate :
        (m : Text) (routes : Routes H)
        → path_matches (f m).0.segments (f m).0.subtree path && method_matches (f m).0.method method
          ≡ text_eq m name
        → candidates method path (f m ∷ routes) ≡ (
            if text_eq m name
            then f m ∷ candidates method path routes
            else candidates method path routes)
    unfolding candidates
    candidate m routes tells = rw (sym tells) refl

    all_copies :
        (names : List Text) → Tells names → AreCopies (candidates method path (map f names))
    unfolding candidates
    all_copies [] h = tt
    all_copies (m ∷ names) h =
        subst AreCopies (sym (candidate m (map f names) h.0)) (elim (Bool-cases (text_eq m name)) [
          | inl same ↦ rw same (ap f (text_eq_sound m name same), all_copies names h.1)
          | inr other ↦ rw other (all_copies names h.1)
        ])

    some-candidate :
        (names : List Text)
        → Tells names
        → In name names
        → (x : Pattern × H) × (rest : Routes H) × (candidates method path (map f names) ≡ x ∷ rest)
    some-candidate [] h i = absurd i
    some-candidate (m ∷ names) h i = elim (Bool-cases (text_eq m name)) [
      | inl same ↦
          (f m, candidates method path (map f names), candidate m (map f names) h.0 ∙ rw same refl)
      | inr other ↦
          let (x, rest, e) = some-candidate names h.1 (later m names other i) in
          (x, rest, candidate m (map f names) h.0 ∙ rw other e)
    ]
      where
        later :
            (m : Text) (names : List Text)
            → text_eq m name ≡ false
            → In name (m ∷ names)
            → In name names
        later m names other (inr i) = i
        later m names other (inl e) = absurd (
            false-true (sym other ∙ subst (λ t. text_eq m t ≡ true) (sym (sym e)) (text_eq_refl m)))

    -- the route of the name is the best one
    pub best-named :
        (names : List Text)
        → Tells names
        → In name names
        → best (candidates method path (map f names)) ≡ some (f name)
    best-named names h i =
        let (x, rest, e) = some-candidate names h i in
        let (first, others) = subst AreCopies e (all_copies names h) in
        ap best (e ∙ ap (λ y. y ∷ rest) first) ∙ best-copies (f name) rest others
