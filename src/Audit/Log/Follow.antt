-- ===== src/Audit/Log/Follow.antt =====
-- `audit tail -f` shows every new row once and in order (cmd/gateway/audit.go, `runAudit`;
-- internal/audit/store.go, `Query`).
use rusty_gateway.Common.{
  ℕ, suc, ◌≡◌, ◌<◌, ◌≤◌, refl, sym, ap, ap₂, ◌∙◌, Bool, true, ◌&&◌, List, [], ◌∷◌, ◌++◌, all,
  select, take, drop, max, ltb, arith, Bool-cases, inl, inr, append_assoc, take-append-drop,
  All-take,
}
use rusty_gateway.Common.Int.{ℤ}
use rusty_gateway.Audit.{Row}
use rusty_gateway.Audit.Query.{Filter, plan, passes, meets, follow_filter, Condition, id_above}
use rusty_gateway.Audit.Log.{max_id, insert_row, query, Tail, tail_start, last_id, tail_turn}
use rusty_gateway.Audit.Log.Sorted.{
  Above, Ascending, insert_row-Ascending, Ascending-select, select-select, select-append,
  select-after, last_id-max, Ascending-take, last_id-le, last_id-le_max, below_max, All-select,
  max_id-append,
}

with_id :
    (r : Row) (cs : List Condition) (n : ℕ)
    → all (meets r) (cs ++ id_above n ∷ []) ≡ (all (meets r) (cs ++ []) && ltb n r.id)
unfolding meets
with_id r [] n = ground arith
with_id r (c ∷ cs) n = ground (arith, with_id r cs n)

above_one : (last : ℕ) → ltb 0 (max last 1) ≡ true
above_one last = ground arith

module _ (base : Filter) where
  -- what a turn may still show: rows of the filter with an ID above `last`, and above 1
  abbrev pub unseen : ℕ → Row → Bool
  unseen last r = passes base r && ltb (max last 1) r.id

  -- `audit tail -f` with -n of this number, from the rows that there were at the start: rows are
  -- inserted, and turns of the loop are made. No row is deleted meanwhile.
  pub data Following (n : ℤ) (first : List Row) : Tail → List Row → Type 0 where
    begun : Following n first (tail_start base n first) first
    inserted :
        {t : Tail} {rows : List Row} (r : Row)
        → Following n first t rows
        → Following n first t (insert_row r rows)
    turned :
        {t : Tail} {rows : List Row}
        → Following n first t rows
        → Following n first (tail_turn base rows t) rows

module _ (base : Filter) (plain : base.after_id ≡ 0) where
  follow_passes : (last : ℕ) (r : Row) → passes (follow_filter base last) r ≡ unseen base last r
  unfolding passes plan follow_filter
  follow_passes last r = rw (above_one last, plain) (with_id r _ (max last 1))

  -- a turn finds the first 1000 rows that are still unseen
  follow_query :
      (last : ℕ) (rows : List Row)
      → query (follow_filter base last) rows ≡ take 1000 (select (unseen base last) rows)
  unfolding query
  follow_query last rows = rw (plan_first last) (
      rw (plan_limit last) (
        ap (take 1000) (
          select-same (passes (follow_filter base last)) (unseen base last) rows
            (follow_passes last))))
    where
      plan_first : (last : ℕ) → (plan (follow_filter base last)).oldest_first ≡ true
      plan_first last = unfold plan follow_filter in above_one last

      plan_limit : (last : ℕ) → (plan (follow_filter base last)).limit ≡ 1000
      plan_limit last = unfold plan follow_filter in refl

      select-same :
          (p q : Row → Bool) (rows : List Row)
          → ((r : Row) → p r ≡ q r)
          → select p rows ≡ select q rows
      select-same p q [] e = refl
      select-same p q (r ∷ rows) e = rw (e r) (rw (select-same p q rows e) refl)

  -- from a later point, a row is unseen when it was unseen before and has a greater ID
  unseen_later :
      (last later : ℕ) (rows : List Row)
      → max last 1 ≤ max later 1
      → select (λ r. ltb (max later 1) r.id) (select (unseen base last) rows)
        ≡ select (unseen base later) rows
  unseen_later last later rows le =
      select-select (unseen base last) (λ r. ltb (max later 1) r.id) rows ∙ same rows
    where
      one : (r : Row) → (unseen base last r && ltb (max later 1) r.id) ≡ unseen base later r
      one r = ground arith

      same :
          (rows : List Row)
          → select (λ r. unseen base last r && ltb (max later 1) r.id) rows
            ≡ select (unseen base later) rows
      same [] = refl
      same (r ∷ rows) = rw (one r) (rw (same rows) refl)

  unseen-Above : (last : ℕ) (rows : List Row) → Above (max last 1) (select (unseen base last) rows)
  unseen-Above last [] = tt
  unseen-Above last (r ∷ rows) = elim (Bool-cases (unseen base last r)) [
    | inl shown ↦ rw shown (ground arith, unseen-Above last rows)
    | inr other ↦ rw other (unseen-Above last rows)
  ]

  -- the point after a turn, and what is unseen then
  abbrev after_turn : (last : ℕ) (rows : List Row) → ℕ
  after_turn last rows = last_id last (take 1000 (select (unseen base last) rows))

  after_turn-max :
      (last : ℕ) (rows : List Row)
      → Ascending rows
      → max (after_turn last rows) 1
        ≡ last_id (max last 1) (take 1000 (select (unseen base last) rows))
  after_turn-max last rows a =
      let shown = select (unseen base last) rows in
      last_id-max last (take 1000 shown)
        (Ascending-take 1000 shown (Ascending-select (unseen base last) rows a))
        (All-take _ 1000 shown (unseen-Above last rows))

  after_turn-le :
      (last : ℕ) (rows : List Row) → Ascending rows → max last 1 ≤ max (after_turn last rows) 1
  after_turn-le last rows a = rw (after_turn-max last rows a) (
      last_id-le (max last 1) 1000 (select (unseen base last) rows)
        (Ascending-select (unseen base last) rows a) (unseen-Above last rows))

  unseen-after_turn :
      (last : ℕ) (rows : List Row)
      → Ascending rows
      → select (unseen base (after_turn last rows)) rows
        ≡ drop 1000 (select (unseen base last) rows)
  unseen-after_turn last rows a =
      sym (unseen_later last (after_turn last rows) rows (after_turn-le last rows a))
      ∙ rw (after_turn-max last rows a) (
          select-after (max last 1) 1000 (select (unseen base last) rows)
            (Ascending-select (unseen base last) rows a) (unseen-Above last rows))

  module _ (n : ℤ) (first : List Row) (sorted : Ascending first) where
    abbrev pub begin_with : Tail
    begin_with = tail_start base n first

    abbrev TailInv : Tail → List Row → Type 0
    TailInv t rows =
        Ascending rows
        × (max begin_with.last 1 ≤ max t.last 1)
        × (max t.last 1 ≤ max (max begin_with.last 1) (max_id rows))
        × (t.printed ++ select (unseen base t.last) rows
            ≡ begin_with.printed ++ select (unseen base begin_with.last) rows)

    insert-TailInv :
        (r : Row) (t : Tail) (rows : List Row) → TailInv t rows → TailInv t (insert_row r rows)
    unfolding insert_row
    insert-TailInv r t rows v =
        let x = record r { id = suc (max_id rows) } in
        (
          insert_row-Ascending r rows v.0,
          v.1,
          omega (arith, v.2, max_id-append rows (x ∷ [])),
          ap (λ l. t.printed ++ l) (select-append (unseen base t.last) rows (x ∷ []))
              ∙ sym (append_assoc t.printed (select (unseen base t.last) rows) _)
              ∙ ap₂ (λ (a b : List Row). a ++ b) v.3
                  (new_row x (omega (arith, v.1)) (omega (arith, v.2)))
              ∙ append_assoc begin_with.printed (select (unseen base begin_with.last) rows) _
              ∙ ap (λ l. begin_with.printed ++ l)
                  (sym (select-append (unseen base begin_with.last) rows (x ∷ []))),
        )
      where
        new_row :
            (x : Row)
            → max begin_with.last 1 ≤ max t.last 1
            → max t.last 1 < max (suc (max begin_with.last 1)) x.id
            → select (unseen base t.last) (x ∷ []) ≡ select (unseen base begin_with.last) (x ∷ [])
        new_row x le lt = ground arith

    turn-TailInv :
        (t : Tail) (rows : List Row) → TailInv t rows → TailInv (tail_turn base rows t) rows
    unfolding tail_turn
    turn-TailInv t rows v =
        let shown = select (unseen base t.last) rows in
        let most = max (max begin_with.last 1) (max_id rows) in
        rw (follow_query t.last rows) (
          v.0,
          omega (arith, v.1, after_turn-le t.last rows v.0),
          rw (after_turn-max t.last rows v.0) (
              last_id-le_max (max t.last 1) 1000 shown most v.2
                (All-select _ (unseen base t.last) rows (below_max most rows (omega arith)))),
          rw (unseen-after_turn t.last rows v.0) (
              append_assoc t.printed (take 1000 shown) (drop 1000 shown)
              ∙ ap (λ l. t.printed ++ l) (take-append-drop 1000 shown)
              ∙ v.3),
        )

    Following-TailInv :
        {t : Tail} {rows : List Row} → Following base n first t rows → TailInv t rows
    Following-TailInv begun = (sorted, omega arith, omega arith, refl)
    Following-TailInv (inserted r h) = insert-TailInv r _ _ (Following-TailInv h)
    Following-TailInv (turned h) = turn-TailInv _ _ (Following-TailInv h)

  -- While rows are inserted and none is deleted, `audit tail -f` has printed, after what it printed
  -- at the start, rows of the filter that have come since, in their order and each once: together
  -- with those that it has still to show, they are all rows of the filter with an ID above that
  -- of the last one printed at the start, and above 1. The next turn prints the first 1000 of
  -- those that are still to show, and leaves the others to the turns after it.
  pub Following-complete :
      (n : ℤ) (first rows : List Row) (t : Tail)
      → Ascending first
      → Following base n first t rows
      → (t.printed ++ select (unseen base t.last) rows
          ≡ (tail_start base n first).printed
            ++ select (unseen base (tail_start base n first).last) rows)
        × ((tail_turn base rows t).printed
            ≡ t.printed ++ take 1000 (select (unseen base t.last) rows))
        × (select (unseen base (tail_turn base rows t).last) rows
            ≡ drop 1000 (select (unseen base t.last) rows))
  unfolding tail_turn
  Following-complete n first rows t sorted h =
      let v = Following-TailInv n first sorted h in
      rw (follow_query t.last rows) (v.3, refl, unseen-after_turn t.last rows v.0)
