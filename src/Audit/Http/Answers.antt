-- ===== src/Audit/Http/Answers.antt =====
-- What a request for the log gets (internal/audit/http.go, internal/audit/store.go).
use rusty_gateway.Common.{
  ℕ, ◌≤◌, ◌<◌, ◌≡◌, ◌↔◌, refl, ap, subst, ◌∙◌, Bool, true, false, ◌||◌, ◌&&◌, Option, none, some,
  List, [], ◌∷◌, ◌++◌, In, all, select, take, ltb, arith, Bool-cases, Option-cases, inl, inr, ◌⊎◌,
  if◌then◌else◌,
}
use rusty_gateway.Common.Int.{ℤ, pos, negsuc, pos_part, int_leb, int_ltb}
use rusty_gateway.Common.Text.{Text, text_eq, text_eq_sound, text_eq_refl, is_empty}
use rusty_gateway.Audit.{Row}
use rusty_gateway.Audit.Query.{
  Filter, Condition, namespace_is, server_is, tool_is, status_is, text_condition, since_condition,
  id_condition, plan, passes, meets,
}
use rusty_gateway.Audit.Log.{query, reverse_rows}
use rusty_gateway.Audit.Log.Sorted.{Ascending, Ascending-select}
use rusty_gateway.Audit.Http.{
  Times, Params, Answer, bad_request, rows, parse_int, filter_of, since_param, audit_handler,
}

abbrev pub Asked : Text → Text → Type 0
Asked wanted is = (is_empty wanted ≡ true) ⊎ (is ≡ wanted)

-- a row that is not older than `since`
abbrev pub NotBefore : Option ℤ → Row → Type 0
NotBefore none r = Unit
NotBefore (some t) r = int_leb t r.ts ≡ true

-- a row that has every text that the request names, its `since`, and an ID above its `after_id`
abbrev pub Matches : Params → Option ℤ → Row → Type 0
Matches p since r =
    Asked p.namespace r.namespace
    × Asked p.server r.server
    × Asked p.tool r.tool
    × Asked p.status r.status
    × NotBefore since r
    × ((pos_part (parse_int p.after_id) ≡ 0) ⊎ (pos_part (parse_int p.after_id) < r.id))

-- the number of rows that a request may have: its `limit` from 1 to 1000, or else 100
abbrev pub IsLimit : ℤ → ℕ → Type 0
IsLimit asked n =
    ((asked ≡ pos n) × (0 < n) × (n ≤ 1000))
    ⊎ (((k : ℕ) → asked ≡ pos k → (0 < k) → k ≤ 1000 → ⊥) × (n ≡ 100))

text-Asked :
    (is : Text → Condition) (wanted has : Text) (r : Row)
    → meets r (is wanted) ≡ text_eq has wanted
    → (all (meets r) (text_condition is wanted) ≡ true) ↔ Asked wanted has
unfolding text_condition
text-Asked is wanted has r m = elim (Bool-cases (is_empty wanted)) [
  | inl any_text ↦ rw any_text ((λ h. inl refl), λ h. refl)
  | inr named ↦ rw (named, m) ((λ h. inr (text_eq_sound has wanted (whole h))), λ h. equal named h)
]
  where
    whole : {a : Bool} → (a && true) ≡ true → a ≡ true
    whole h = ground arith

    equal :
        is_empty wanted ≡ false
        → (false ≡ true) ⊎ (has ≡ wanted)
        → (text_eq has wanted && true) ≡ true
    equal named (inl e) = cc
    equal named (inr e) = rw (e, text_eq_refl wanted) refl

since-NotBefore :
    (since : Option ℤ) (r : Row)
    → (all (meets r) (since_condition since) ≡ true) ↔ NotBefore since r
unfolding since_condition meets
since-NotBefore none r = ((λ h. tt), λ h. refl)
since-NotBefore (some t) r = ((λ h. ground (arith, h)), λ h. rw h refl)

above_id : (n : ℕ) (r : Row) → (all (meets r) (id_condition n) ≡ true) ↔ ((n ≡ 0) ⊎ (n < r.id))
unfolding id_condition meets
above_id n r = elim (Bool-cases (ltb 0 n)) [
  | inl positive ↦ rw positive ((λ h. inr (ground (arith, h))), λ h. above positive h)
  | inr zero_id ↦ rw zero_id ((λ h. inl (ground (arith, zero_id))), λ h. refl)
]
  where
    above : ltb 0 n ≡ true → (n ≡ 0) ⊎ (n < r.id) → (ltb n r.id && true) ≡ true
    above positive (inl e) = absurd (ground (arith, positive))
    above positive (inr lt) = ground arith

both :
    {P Q : Type 0} (r : Row) (xs ys : List Condition)
    → (all (meets r) xs ≡ true) ↔ P
    → (all (meets r) ys ≡ true) ↔ Q
    → (all (meets r) (xs ++ ys) ≡ true) ↔ (P × Q)
both r xs ys p q = (
  (λ h. let (first, last) = apart xs h in (p.0 first, q.0 last)),
  λ h. together xs (p.1 h.0) (q.1 h.1),
)
  where
    apart :
        (xs : List Condition)
        → all (meets r) (xs ++ ys) ≡ true
        → (all (meets r) xs ≡ true) × (all (meets r) ys ≡ true)
    apart [] h = (refl, h)
    apart (x ∷ xs) h = ground (arith, apart xs)

    together :
        (xs : List Condition)
        → all (meets r) xs ≡ true
        → all (meets r) ys ≡ true
        → all (meets r) (xs ++ ys) ≡ true
    together [] h k = k
    together (x ∷ xs) h k = ground (arith, together xs)

-- the filter that the handler makes of a request
abbrev asked_filter : Params → Option ℤ → Filter
asked_filter p since = record {
  namespace = p.namespace;
  server = p.server;
  tool = p.tool;
  status = p.status;
  since = since;
  after_id = pos_part (parse_int p.after_id);
  limit = parse_int p.limit;
}

passes-Matches :
    (p : Params) (since : Option ℤ) (r : Row)
    → (passes (asked_filter p since) r ≡ true) ↔ Matches p since r
unfolding passes plan meets
passes-Matches p since r =
    let six =
      both r _ _
        (both r _ _
          (both r _ _
            (both r _ _
              (both r _ _ (text-Asked namespace_is p.namespace r.namespace r refl)
                (text-Asked server_is p.server r.server r refl))
              (text-Asked tool_is p.tool r.tool r refl))
            (text-Asked status_is p.status r.status r refl))
          (since-NotBefore since r))
        (above_id (pos_part (parse_int p.after_id)) r) in
    (
      (λ h. let (((((a, b), c), d), e), g) = six.0 h in (a, b, c, d, e, g)),
      λ h. six.1 (((((h.0, h.1), h.2), h.3), h.4), h.5),
    )

In-select :
    (q : Row → Bool) (rs : List Row) (r : Row) → (In r (select q rs)) ↔ (In r rs × (q r ≡ true))
In-select q rs r = (found rs, λ h. kept rs h.0 h.1)
  where
    found : (rs : List Row) → In r (select q rs) → In r rs × (q r ≡ true)
    found [] h = absurd h
    found (x ∷ rs) h = elim (Bool-cases (q x)) [
      | inl passed ↦ elim (the_cases passed h) [
        | inl same ↦ (inl same, subst (λ y. q y ≡ true) same passed)
        | inr later ↦ let (i, e) = found rs later in (inr i, e)
      ]
      | inr failed ↦ let (i, e) = found rs (rw failed at h) in (inr i, e)
    ]
      where
        the_cases : q x ≡ true → In r (select q (x ∷ rs)) → (x ≡ r) ⊎ In r (select q rs)
        the_cases passed h = rw passed at h

    kept : (rs : List Row) → In r rs → q r ≡ true → In r (select q rs)
    kept [] i e = i
    kept (x ∷ rs) (inl same) e = rw (ap q same ∙ e) (inl same)
    kept (x ∷ rs) (inr i) e = elim (Bool-cases (q x)) [
      | inl passed ↦ rw passed (inr (kept rs i e))
      | inr failed ↦ rw failed (kept rs i e)
    ]

limit-IsLimit : (f : Filter) → IsLimit f.limit (plan f).limit
unfolding plan
limit-IsLimit f = limits f.limit
  where
    limits :
        (l : ℤ) → IsLimit l (if int_leb l (pos 0) || int_ltb (pos 1000) l then 100 else pos_part l)
    limits (pos n) = elim (Bool-cases (int_leb (pos n) (pos 0) || int_ltb (pos 1000) (pos n))) [
      | inl out ↦ rw out (inr ((λ k e a b. outside n k out (ap pos_part e) a b), refl))
      | inr within ↦ rw within (inl (refl, ground (arith, within), ground (arith, within)))
    ]
      where
        outside :
            (n k : ℕ)
            → (int_leb (pos n) (pos 0) || int_ltb (pos 1000) (pos n)) ≡ true
            → n ≡ k
            → 0 < k
            → k ≤ 1000
            → ⊥
        outside n k h e a b = ground arith
    limits (negsuc n) = inr ((λ k e a b. cc), ground arith)

-- What a request gets whose `since` is read: of the rows of the log that match, ordered by their
-- IDs, the first ones after its `after_id`, or the last ones without one, as many as the limit
-- allows.
abbrev pub Answered : Params → Option ℤ → List Row → Answer → Type 0
Answered p since stored a =
    (ordered : List Row) × (n : ℕ) × Ascending ordered
    × ((r : Row) → In r ordered ↔ (In r stored × Matches p since r))
    × IsLimit (parse_int p.limit) n
    × (((pos_part (parse_int p.after_id) ≡ 0) × (a ≡ rows (take n (reverse_rows ordered))))
        ⊎ ((0 < pos_part (parse_int p.after_id)) × (a ≡ rows (take n ordered))))

iff_with : {A B C D : Type 0} → D ↔ (A × B) → B ↔ C → D ↔ (A × C)
iff_with d b = ((λ h. let (a, k) = d.0 h in (a, b.0 k)), λ h. d.1 (h.0, b.1 h.1))

ordered_by :
    (n k : ℕ) (xs : List Row)
    → ((n ≡ 0)
        × (rows (take k (if ltb 0 n then xs else reverse_rows xs))
            ≡ rows (take k (reverse_rows xs))))
      ⊎ ((0 < n) × (rows (take k (if ltb 0 n then xs else reverse_rows xs)) ≡ rows (take k xs)))
ordered_by n k xs = elim (Bool-cases (ltb 0 n)) [
  | inl positive ↦ rw positive (inr (ground (arith, positive), refl))
  | inr without ↦ rw without (inl (ground (arith, without), refl))
]

query-Answered :
    (p : Params) (since : Option ℤ) (stored : List Row)
    → Ascending stored
    → Answered p since stored (rows (query (asked_filter p since) stored))
unfolding query plan
query-Answered p since stored a = (
  select (passes (asked_filter p since)) stored,
  (plan (asked_filter p since)).limit,
  Ascending-select (passes (asked_filter p since)) stored a,
  (λ r. iff_with (In-select (passes (asked_filter p since)) stored r) (passes-Matches p since r)),
  limit-IsLimit (asked_filter p since),
  ordered_by (pos_part (parse_int p.after_id)) (plan (asked_filter p since)).limit
      (select (passes (asked_filter p since)) stored),
)

-- With the table in the order of its IDs: a request is answered by 400 when it has a `since` that
-- neither a duration nor a time can be read from. Else the answer is exact: of the rows of the log
-- that have every text of the request, are not older than its `since` and have an ID above its
-- `after_id`, and no others, it has the first `limit` by ascending ID when there is an `after_id`,
-- and the last `limit` by descending ID when there is none, where a `limit` that is not from 1 to
-- 1000 counts as 100.
pub audit_handler-Answered :
    (times : Times) (now : ℕ) (stored : List Row) (p : Params)
    → Ascending stored
    → ((since_param times now p.since ≡ none)
        × (audit_handler times now (λ f. some (query f stored)) p ≡ bad_request))
      ⊎ ((since : Option ℤ) × (since_param times now p.since ≡ some since)
          × Answered p since stored (audit_handler times now (λ f. some (query f stored)) p))
unfolding audit_handler filter_of
audit_handler-Answered times now stored p a = elim (Option-cases (since_param times now p.since)) [
  | inl refused ↦ inl (refused, rw (refused, audit_handler, filter_of) refl)
  | inr (since, e) ↦
      inr (since, e, rw (e, audit_handler, filter_of) (query-Answered p since stored a))
]
