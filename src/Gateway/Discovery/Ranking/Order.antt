-- ===== src/Gateway/Discovery/Ranking/Order.antt =====
-- The order of search results (internal/gateway/discovery.go, `search`) and the sort by it.
use rusty_gateway.Common.{
  ℕ, zero, suc, ◌≡◌, refl, true, false, List, [], ◌∷◌, All, arith, take, drop, Bool-cases, In, inl,
  inr, All-take, All-lookup, subst,
}
use rusty_gateway.Common.Text.{Text}
use rusty_gateway.Gateway.Discovery.Ranking.{text_ltb, Scored, before, place, sort_stable}

pub text_ltb_trans :
    (r s t : Text) → text_ltb s r ≡ false → text_ltb t s ≡ false → text_ltb t r ≡ false
unfolding text_ltb
text_ltb_trans [] s t h k = refl
text_ltb_trans (a ∷ r) [] t h k = ground arith
text_ltb_trans (a ∷ r) (b ∷ s) [] h k = ground arith
text_ltb_trans (a ∷ r) (b ∷ s) (c ∷ t) h k = ground (arith, text_ltb_trans r s t)

text_ltb_asym : (s t : Text) → text_ltb s t ≡ true → text_ltb t s ≡ false
unfolding text_ltb
text_ltb_asym [] [] h = ground arith
text_ltb_asym [] (b ∷ t) h = refl
text_ltb_asym (a ∷ s) [] h = ground arith
text_ltb_asym (a ∷ s) (b ∷ t) h = ground (arith, text_ltb_asym s t)

-- `Keeps a b`: the item a may stand anywhere above b.
abbrev pub Keeps : Scored → Scored → Type 0
Keeps a b = before b a ≡ false

Keeps-trans : (a b c : Scored) → Keeps a b → Keeps b c → Keeps a c
unfolding before
Keeps-trans a b c h k = ground (arith, text_ltb_trans a.info.name b.info.name c.info.name)

Keeps-of_before : (a b : Scored) → before a b ≡ true → Keeps a b
unfolding before
Keeps-of_before a b h = ground (arith, text_ltb_asym a.info.name b.info.name)

abbrev pub Ordered : List Scored → Type 0
Ordered [] = Unit
Ordered (x ∷ xs) = All (Keeps x) xs × Ordered xs

module _ {κ} (P : Scored → Type κ) where
  All-place : (x : Scored) (ys : List Scored) → P x → All P ys → All P (place x ys)
  unfolding place
  All-place x [] px h = (px, tt)
  All-place x (y ∷ ys) px h = elim (Bool-cases (before y x)) [
    | inl above ↦ rw above (h.0, All-place x ys px h.1)
    | inr below ↦ rw below (px, h)
  ]

  pub All-sort_stable : (xs : List Scored) → All P xs → All P (sort_stable xs)
  unfolding sort_stable
  All-sort_stable [] h = tt
  All-sort_stable (x ∷ xs) h = All-place x (sort_stable xs) h.0 (All-sort_stable xs h.1)

Keeps-All : (x y : Scored) (ys : List Scored) → Keeps x y → All (Keeps y) ys → All (Keeps x) ys
Keeps-All x y [] k h = tt
Keeps-All x y (z ∷ ys) k h = (Keeps-trans x y z k h.0, Keeps-All x y ys k h.1)

place-Ordered : (x : Scored) (ys : List Scored) → Ordered ys → Ordered (place x ys)
unfolding place
place-Ordered x [] h = (tt, tt)
place-Ordered x (y ∷ ys) h = elim (Bool-cases (before y x)) [
  | inl above ↦
      rw above (All-place (Keeps y) x ys (Keeps-of_before y x above) h.0, place-Ordered x ys h.1)
  | inr below ↦ rw below ((below, Keeps-All x y ys below h.0), h)
]

pub sort_stable-Ordered : (xs : List Scored) → Ordered (sort_stable xs)
unfolding sort_stable
sort_stable-Ordered [] = tt
sort_stable-Ordered (x ∷ xs) = place-Ordered x (sort_stable xs) (sort_stable-Ordered xs)

In-place_self : (x : Scored) (ys : List Scored) → In x (place x ys)
unfolding place
In-place_self x [] = inl refl
In-place_self x (y ∷ ys) = elim (Bool-cases (before y x)) [
  | inl above ↦ rw above (inr (In-place_self x ys))
  | inr below ↦ rw below (inl refl)
]

In-place : (a x : Scored) (ys : List Scored) → In a ys → In a (place x ys)
unfolding place
In-place a x [] h = absurd h
In-place a x (y ∷ ys) h = elim (Bool-cases (before y x)) [
  | inl above ↦ rw above (elim h [ inl e ↦ inl e | inr i ↦ inr (In-place a x ys i) ])
  | inr below ↦ rw below (inr h)
]

pub In-sort_stable : (a : Scored) (xs : List Scored) → In a xs → In a (sort_stable xs)
unfolding sort_stable
In-sort_stable a [] h = absurd h
In-sort_stable a (x ∷ xs) h = elim h [
  | inl e ↦ subst (λ b. In b (place x (sort_stable xs))) e (In-place_self x (sort_stable xs))
  | inr i ↦ In-place a x (sort_stable xs) (In-sort_stable a xs i)
]

pub Ordered-take : (n : ℕ) (xs : List Scored) → Ordered xs → Ordered (take n xs)
Ordered-take zero xs h = tt
Ordered-take (suc n) [] h = tt
Ordered-take (suc n) (x ∷ xs) h = (All-take (Keeps x) n xs h.0, Ordered-take n xs h.1)

All-drop : (P : Scored → Type 0) (n : ℕ) (xs : List Scored) → All P xs → All P (drop n xs)
All-drop P zero xs h = h
All-drop P (suc n) [] h = tt
All-drop P (suc n) (x ∷ xs) h = All-drop P n xs h.1

-- What the first n items leave out does not come before any of them.
pub Ordered-drop :
    (n : ℕ) (xs : List Scored) (z : Scored)
    → Ordered xs
    → In z (drop n xs)
    → All (λ y. Keeps y z) (take n xs)
Ordered-drop zero xs z h i = tt
Ordered-drop (suc n) [] z h i = absurd i
Ordered-drop (suc n) (x ∷ xs) z h i =
    (All-lookup (Keeps x) z (drop n xs) (All-drop (Keeps x) n xs h.0) i, Ordered-drop n xs z h.1 i)
