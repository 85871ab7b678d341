-- ===== src/Supervisor/Stderr/Lines.antt =====
-- What the log of a child's stderr holds (internal/supervisor/supervisor.go, `Write` and `emit`).
use rusty_gateway.Common.{
  ◌≤◌, ◌≡◌, refl, Bool, List, [], ◌∷◌, ◌++◌, length, ltb, ◌==◌, All, All-append, append_assoc,
  arith, Bool-cases, inl, inr, length-take,
}
use rusty_gateway.Common.Text.{Text}
use rusty_gateway.Supervisor.Stderr.{max_stderr_line, trim_right, emit, cut_lines, flush, write}

module _ (is_blank : Text → Bool) where
  -- no longer than a log line may be
  abbrev pub IsLine : Text → Type 0
  IsLine line = length line ≤ max_stderr_line

  emit-IsLine : (line : Text) → All IsLine (emit is_blank line)
  unfolding emit
  emit-IsLine line = elim (Bool-cases (is_blank (trim_right line))) [
    | inl blank ↦ rw blank tt
    | inr text ↦ rw text (omega (arith, length-take max_stderr_line (trim_right line)), tt)
  ]

  cut_lines-IsLine : (line s : Text) → All IsLine (cut_lines is_blank line s).0
  unfolding cut_lines
  cut_lines-IsLine line [] = tt
  cut_lines-IsLine line (c ∷ s) = elim (Bool-cases (c == 10)) [
    | inl newline ↦ rw newline (
        All-append IsLine (emit is_blank line) (cut_lines is_blank [] s).0 (emit-IsLine line)
          (cut_lines-IsLine [] s))
    | inr other ↦ rw other (cut_lines-IsLine (line ++ c ∷ []) s)
  ]

  -- After every Write, each line that it logged and what is left in the buffer have at most 4096
  -- bytes, however many came in.
  pub write_bounds :
      (buf p : Text)
      → All IsLine (write is_blank buf p).0 × (length (write is_blank buf p).1 ≤ max_stderr_line)
  unfolding write flush
  write_bounds buf p =
      elim (Bool-cases (ltb max_stderr_line (length (cut_lines is_blank buf p).1))) [
        | inl long ↦ rw long (
          All-append IsLine (cut_lines is_blank buf p).0
              (emit is_blank (cut_lines is_blank buf p).1) (cut_lines-IsLine buf p)
              (emit-IsLine (cut_lines is_blank buf p).1),
          omega arith,
        )
        | inr short ↦ rw short (cut_lines-IsLine buf p, ground arith)
      ]

  cut_lines-append :
      (line p q : Text)
      → cut_lines is_blank line (p ++ q) ≡ (
        (cut_lines is_blank line p).0 ++ (cut_lines is_blank (cut_lines is_blank line p).1 q).0,
        (cut_lines is_blank (cut_lines is_blank line p).1 q).1,
      )
  unfolding cut_lines
  cut_lines-append line [] q = refl
  cut_lines-append line (c ∷ p) q = elim (Bool-cases (c == 10)) [
    | inl newline ↦ rw (newline, cut_lines-append [] p q, append_assoc) refl
    | inr other ↦ rw other (cut_lines-append (line ++ c ∷ []) p q)
  ]

  flush-small : (x : List Text × Text) → length x.1 ≤ max_stderr_line → flush is_blank x ≡ x
  unfolding flush
  flush-small (out, buf) small = elim (Bool-cases (ltb max_stderr_line (length buf))) [
    | inl long ↦ absurd (ground (arith, long, small))
    | inr short ↦ rw short refl
  ]

  flush-append :
      (first out : List Text) (buf : Text)
      → flush is_blank (first ++ out, buf)
        ≡ (first ++ (flush is_blank (out, buf)).0, (flush is_blank (out, buf)).1)
  unfolding flush
  flush-append first out buf = elim (Bool-cases (ltb max_stderr_line (length buf))) [
    | inl long ↦ rw (long, append_assoc) refl
    | inr short ↦ rw short refl
  ]

  -- Two writes log and keep what one write of the joined bytes does, wherever the bytes are cut,
  -- unless the first one has to flush a partial line of more than 4096 bytes.
  pub write-append :
      (buf p q : Text)
      → length (cut_lines is_blank buf p).1 ≤ max_stderr_line
      → write is_blank buf (p ++ q) ≡ (
        (write is_blank buf p).0 ++ (write is_blank (write is_blank buf p).1 q).0,
        (write is_blank (write is_blank buf p).1 q).1,
      )
  unfolding write
  write-append buf p q small =
      rw (cut_lines-append buf p q, flush-small (cut_lines is_blank buf p) small)
        (flush-append (cut_lines is_blank buf p).0
          (cut_lines is_blank (cut_lines is_blank buf p).1 q).0
          (cut_lines is_blank (cut_lines is_blank buf p).1 q).1)
