-- ===== src/Audit/Sink/Order.antt =====
-- What the sink keeps of the calls (internal/audit/sink.go).
use rusty_gateway.Common.{
  ℕ, ◌⊎◌, ◌<◌, ◌+◌, ◌≤◌, ◌≡◌, refl, sym, ap, ap₂, subst, ◌∙◌, Bool, true, false, Option, none, some,
  append-nil, List, [], ◌∷◌, ◌++◌, length, length-append, append_assoc, ltb, arith, Bool-cases, inl,
  inr,
}
use rusty_gateway.Common.Int.{ℤ}
use rusty_gateway.Audit.{Row}
use rusty_gateway.Audit.Sink.{
  Sink, new_sink, observe, receive, write_row, Run, fresh, observed, received, written,
}

-- The first list is the second one with some elements left out.
pub data Sublist : List Row → List Row → Type 0 where
  all_out : Sublist [] []
  left_out : {xs ys : List Row} (y : Row) → Sublist xs ys → Sublist xs (y ∷ ys)
  kept : {xs ys : List Row} (x : Row) → Sublist xs ys → Sublist (x ∷ xs) (x ∷ ys)

Sublist-snoc : {xs ys : List Row} (r : Row) → Sublist xs ys → Sublist (xs ++ r ∷ []) (ys ++ r ∷ [])
Sublist-snoc r all_out = kept r all_out
Sublist-snoc r (left_out y s) = left_out y (Sublist-snoc r s)
Sublist-snoc r (kept x s) = kept x (Sublist-snoc r s)

Sublist-later : {xs ys : List Row} (r : Row) → Sublist xs ys → Sublist xs (ys ++ r ∷ [])
Sublist-later r all_out = left_out r all_out
Sublist-later r (left_out y s) = left_out y (Sublist-later r s)
Sublist-later r (kept x s) = kept x (Sublist-later r s)

head-same : {a b : Row} {xs ys : List Row} → ◌≡◌ {A = List Row} (a ∷ xs) (b ∷ ys) → a ≡ b
head-same e = cc

tail-same : {a b : Row} {xs ys : List Row} → ◌≡◌ {A = List Row} (a ∷ xs) (b ∷ ys) → xs ≡ ys
tail-same e = cc

Sublist-without :
    (first : List Row) (r : Row) (rest : List Row) {zs ys : List Row}
    → zs ≡ first ++ r ∷ rest
    → Sublist zs ys
    → Sublist (first ++ rest) ys
Sublist-without [] r rest e all_out = cc
Sublist-without (f ∷ first) r rest e all_out = cc
Sublist-without first r rest e (left_out y s) = left_out y (Sublist-without first r rest e s)
Sublist-without [] r rest e (kept {ys = ys} x s) =
    left_out x (subst (λ l. Sublist l ys) (tail-same e) s)
Sublist-without (f ∷ first) r rest e (kept {ys = ys} x s) =
    subst (λ h. Sublist (h ∷ (first ++ rest)) (x ∷ ys)) (head-same e)
      (kept x (Sublist-without first r rest (tail-same e) s))

-- the row in the writer's hand
abbrev pub held : Option Row → List Row
held none = []
held (some r) = r ∷ []

abbrev pub SinkInv : List Row → Sink → Type 0
SinkInv seen s =
    Sublist (s.stored ++ held s.writing ++ s.buffer) seen
    × (length s.buffer ≤ s.capacity)
    × (length seen
        ≡ length s.stored + length (held s.writing) + length s.buffer + s.failed + s.dropped)
    × ((s.dropped ≡ 0) ⊎ (s.capacity < length seen))

-- a call that is not dropped leaves it so that there is a dropped one only after too many calls
kept-few :
    (seen : List Row) (r : Row) (capacity dropped : ℕ)
    → (dropped ≡ 0) ⊎ (capacity < length seen)
    → (dropped ≡ 0) ⊎ (capacity < length (seen ++ r ∷ []))
kept-few seen r capacity dropped (inl few) = inl few
kept-few seen r capacity dropped (inr many) = inr (omega (arith, length-append seen (r ∷ [])))

observe-SinkInv :
    (seen : List Row) (r : Row) (s : Sink) → SinkInv seen s → SinkInv (seen ++ r ∷ []) (observe r s)
unfolding observe
observe-SinkInv seen r s v = elim (Bool-cases (ltb (length s.buffer) s.capacity)) [
  | inl room ↦ rw room (
    subst (λ l. Sublist l (seen ++ r ∷ []))
        (append_assoc (s.stored ++ held s.writing) s.buffer (r ∷ [])) (Sublist-snoc r v.0),
    ground (arith, length-append s.buffer (r ∷ []), room),
    omega (arith, v.2, length-append seen (r ∷ []), length-append s.buffer (r ∷ [])),
    kept-few seen r s.capacity s.dropped v.3,
  )
  | inr full ↦ rw full (
    Sublist-later r v.0,
    v.1,
    omega (arith, v.2, length-append seen (r ∷ [])),
    inr (ground (arith, full, v.2, length-append seen (r ∷ []))),
  )
]

-- the row goes from the channel into the writer's hand
receive-SinkInv :
    (seen : List Row) (r : Row) (rest : List Row) (s : Sink)
    → s.writing ≡ none
    → s.buffer ≡ r ∷ rest
    → SinkInv seen s
    → SinkInv seen (receive r rest s)
unfolding receive
receive-SinkInv seen r rest s idle e v = (
  subst (λ l. Sublist l seen)
      (ap₂ (λ w b. s.stored ++ held w ++ b) idle e
        ∙ ap (λ l. l ++ r ∷ rest) (append-nil s.stored)
        ∙ sym (append_assoc s.stored (r ∷ []) rest))
      v.0,
  omega (arith, v.1, ap length e),
  omega (arith, v.2, ap length e, ap (λ w. length (held w)) idle),
  v.3,
)

write_row-SinkInv :
    (seen : List Row) (inserted : Bool) (r : Row) (s : Sink)
    → s.writing ≡ some r
    → SinkInv seen s
    → SinkInv seen (write_row inserted r s)
unfolding write_row
write_row-SinkInv seen true r s e v = (
  subst (λ l. Sublist l seen)
      (ap (λ w. s.stored ++ held w ++ s.buffer) e
        ∙ ap (λ l. l ++ s.buffer) (sym (append-nil (s.stored ++ r ∷ []))))
      v.0,
  v.1,
  omega (arith, v.2, ap (λ w. length (held w)) e, length-append s.stored (r ∷ [])),
  v.3,
)
write_row-SinkInv seen false r s e v = (
  subst (λ l. Sublist l seen) (ap (λ l. l ++ s.buffer) (sym (append-nil s.stored)))
      (Sublist-without s.stored r s.buffer
        (ap (λ w. s.stored ++ held w ++ s.buffer) e ∙ append_assoc s.stored (r ∷ []) s.buffer) v.0),
  v.1,
  omega (arith, v.2, ap (λ w. length (held w)) e),
  v.3,
)

-- After any calls to Observe, and whatever the writer has done meanwhile: the rows in the store,
-- then the one that the writer is about to insert, and then those in the buffer, are rows of these
-- calls in the order of the calls; the buffer holds no more than its size; every call is accounted
-- for, as a row in the store, with the writer or in the buffer, as one that the store refused, or as
-- one counted as dropped; and none is dropped as long as the calls are no more than that size.
pub Run-SinkInv : {size : ℤ} (seen : List Row) (s : Sink) → Run size seen s → SinkInv seen s
unfolding new_sink
Run-SinkInv seen s fresh = (all_out, omega arith, refl, inl refl)
Run-SinkInv seen s (observed r h) = observe-SinkInv _ r _ (Run-SinkInv _ _ h)
Run-SinkInv seen s (received r rest idle e h) =
    receive-SinkInv _ r rest _ idle e (Run-SinkInv _ _ h)
Run-SinkInv seen s (written inserted r e h) = write_row-SinkInv _ inserted r _ e (Run-SinkInv _ _ h)
