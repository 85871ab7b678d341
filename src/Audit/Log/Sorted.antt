-- ===== src/Audit/Log/Sorted.antt =====
-- The table has its rows by strictly ascending ID (internal/audit/store.go, internal/audit/schema.sql).
use rusty_gateway.Common.{
  ℕ, zero, suc, ◌≡◌, ◌<◌, ◌≤◌, refl, ap, Bool, ◌&&◌, List, [], ◌∷◌, ◌++◌, All, select, take, drop,
  max, ltb, arith, Bool-cases, inl, inr, All-take,
}
use rusty_gateway.Audit.{Row}
use rusty_gateway.Audit.Log.{max_id, insert_row, last_id}

abbrev pub Above : ℕ → List Row → Type 0
Above n rows = All (λ (r : Row). n < r.id) rows

abbrev pub Ascending : List Row → Type 0
Ascending [] = Unit
Ascending (r ∷ rows) = Above r.id rows × Ascending rows

pub Above-le : (m n : ℕ) (rows : List Row) → m ≤ n → Above n rows → Above m rows
Above-le m n [] le h = tt
Above-le m n (r ∷ rows) le h = (omega arith, Above-le m n rows le h.1)

Above-snoc :
    (n : ℕ) (rows : List Row) (r : Row) → Above n rows → n < r.id → Above n (rows ++ r ∷ [])
Above-snoc n [] r h lt = (lt, tt)
Above-snoc n (x ∷ rows) r h lt = (h.0, Above-snoc n rows r h.1 lt)

Ascending-snoc :
    (rows : List Row) (r : Row) → Ascending rows → max_id rows < r.id → Ascending (rows ++ r ∷ [])
unfolding max_id
Ascending-snoc [] r h lt = (tt, tt)
Ascending-snoc (x ∷ rows) r h lt =
    (Above-snoc x.id rows r h.0 (omega arith), Ascending-snoc rows r h.1 (omega arith))

-- an insertion keeps the order
pub insert_row-Ascending :
    (r : Row) (rows : List Row) → Ascending rows → Ascending (insert_row r rows)
unfolding insert_row
insert_row-Ascending r rows h = Ascending-snoc rows _ h (omega arith)

pub Above-select :
    (n : ℕ) (p : Row → Bool) (rows : List Row) → Above n rows → Above n (select p rows)
Above-select n p [] h = tt
Above-select n p (r ∷ rows) h = elim (Bool-cases (p r)) [
  | inl yes_it ↦ rw yes_it (h.0, Above-select n p rows h.1)
  | inr no_it ↦ rw no_it (Above-select n p rows h.1)
]

pub Ascending-select :
    (p : Row → Bool) (rows : List Row) → Ascending rows → Ascending (select p rows)
Ascending-select p [] h = tt
Ascending-select p (r ∷ rows) h = elim (Bool-cases (p r)) [
  | inl yes_it ↦ rw yes_it (Above-select r.id p rows h.0, Ascending-select p rows h.1)
  | inr no_it ↦ rw no_it (Ascending-select p rows h.1)
]

pub select-select :
    (p q : Row → Bool) (rows : List Row) → select q (select p rows) ≡ select (λ r. p r && q r) rows
select-select p q [] = refl
select-select p q (r ∷ rows) = elim (Bool-cases (p r)) [
  | inl yes_it ↦ elim (Bool-cases (q r)) [
    | inl both ↦ rw (yes_it, both) (ap (λ l. r ∷ l) (select-select p q rows))
    | inr one ↦ rw (yes_it, one) (select-select p q rows)
  ]
  | inr no_it ↦ rw no_it (select-select p q rows)
]

pub select-append :
    (p : Row → Bool) (xs ys : List Row) → select p (xs ++ ys) ≡ select p xs ++ select p ys
select-append p [] ys = refl
select-append p (x ∷ xs) ys = elim (Bool-cases (p x)) [
  | inl yes_it ↦ rw yes_it (ap (λ l. x ∷ l) (select-append p xs ys))
  | inr no_it ↦ rw no_it (select-append p xs ys)
]

pub select-all : (n : ℕ) (rows : List Row) → Above n rows → select (λ r. ltb n r.id) rows ≡ rows
select-all n [] h = refl
select-all n (r ∷ rows) h = ground (arith, select-all n rows)

pub last_id-le :
    (n k : ℕ) (rows : List Row) → Ascending rows → Above n rows → n ≤ last_id n (take k rows)
unfolding last_id
last_id-le n zero rows a h = omega arith
last_id-le n (suc k) [] a h = omega arith
last_id-le n (suc k) (r ∷ rows) a h = omega (arith, h.0, last_id-le r.id k rows a.1 a.0)

-- After the first k rows of an ascending list, the rows with a greater ID are the others.
pub select-after :
    (n k : ℕ) (rows : List Row)
    → Ascending rows
    → Above n rows
    → select (λ r. ltb (last_id n (take k rows)) r.id) rows ≡ drop k rows
unfolding last_id
select-after n zero rows a h = select-all n rows h
select-after n (suc k) [] a h = refl
select-after n (suc k) (r ∷ rows) a h =
    ground (arith, last_id-le r.id k rows a.1 a.0, select-after r.id k rows a.1 a.0)

pub last_id-le_max :
    (n k : ℕ) (rows : List Row) (m : ℕ)
    → n ≤ m
    → All (λ (r : Row). r.id ≤ m) rows
    → last_id n (take k rows) ≤ m
unfolding last_id
last_id-le_max n zero rows m le h = le
last_id-le_max n (suc k) [] m le h = le
last_id-le_max n (suc k) (r ∷ rows) m le h = last_id-le_max r.id k rows m h.0 h.1

pub below_max : (m : ℕ) (rows : List Row) → max_id rows ≤ m → All (λ (r : Row). r.id ≤ m) rows
unfolding max_id
below_max m [] h = tt
below_max m (r ∷ rows) h = (omega arith, below_max m rows (omega arith))

pub All-select :
    (P : Row → Type 0) (p : Row → Bool) (rows : List Row) → All P rows → All P (select p rows)
All-select P p [] h = tt
All-select P p (r ∷ rows) h = elim (Bool-cases (p r)) [
  | inl yes_it ↦ rw yes_it (h.0, All-select P p rows h.1)
  | inr no_it ↦ rw no_it (All-select P p rows h.1)
]

pub max_id-append : (xs ys : List Row) → max_id (xs ++ ys) ≡ max (max_id xs) (max_id ys)
unfolding max_id
max_id-append [] ys = omega arith
max_id-append (x ∷ xs) ys = omega (arith, max_id-append xs ys)

-- what `last` becomes, seen from max(last, 1)
pub last_id-max :
    (last : ℕ) (rows : List Row)
    → Ascending rows
    → Above (max last 1) rows
    → max (last_id last rows) 1 ≡ last_id (max last 1) rows
unfolding last_id
last_id-max last [] a h = refl
last_id-max last (r ∷ rows) a h = at_least (last_id r.id rows) (reaches r.id rows a.1 a.0)
  where
    reaches : (n : ℕ) (rows : List Row) → Ascending rows → Above n rows → n ≤ last_id n rows
    reaches n [] a h = omega arith
    reaches n (x ∷ rows) a h = omega (arith, h.0, reaches x.id rows a.1 a.0)

    at_least : (n : ℕ) → r.id ≤ n → max n 1 ≡ n
    at_least n le = omega (arith, h.0)

pub Ascending-take : (k : ℕ) (rows : List Row) → Ascending rows → Ascending (take k rows)
Ascending-take zero rows a = tt
Ascending-take (suc k) [] a = tt
Ascending-take (suc k) (r ∷ rows) a = (All-take _ k rows a.0, Ascending-take k rows a.1)
