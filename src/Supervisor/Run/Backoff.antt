-- ===== src/Supervisor/Run/Backoff.antt =====
-- The pause between two runs of an upstream, and when the loop gives up
-- (internal/supervisor/supervisor.go, `run`).
use rusty_gateway.Common.{
  ℕ, suc, ◌-◌, ◌*◌, ◌^◌, ◌%◌, ◌≤◌, ◌<◌, ◌≡◌, refl, false, List, [], ◌∷◌, arith, All, length, min,
  ltb, ltb→lt, Bool-cases, inl, inr, ◌⊎◌,
}
use rusty_gateway.Common.Int.{pos, int_leb, of_bits, to_bits, time_sub}
use rusty_gateway.Common.Text.{Text}
use rusty_gateway.Supervisor.{starting, failed, Spec, Options, new_upstream}
use rusty_gateway.Supervisor.Run.{
  looping, connecting, resting, finished, Machine, new_machine, begin_run, connect, Reach, here,
  next, begin, dial, settles, timer, connect_error, settle, next_failures, backoff, set_state,
}

pred-suc : (n : ℕ) → suc n - 1 ≡ n
pred-suc n = omega arith

shifted_small :
    (b k : ℕ) → b < 2 ^ 63 → b * k < 2 ^ 63 → of_bits ((to_bits (pos b) * k) % 2 ^ 64) ≡ pos (b * k)
shifted_small b k hb h = ground arith

-- With a least pause of b and a greatest of c nanoseconds, the pause after n + 1 failures in a row
-- is the smaller of b * 2^n and c, provided that b * 2^n fits in 63 bits.
pub backoff_doubles :
    (opts : Options) (b c n : ℕ)
    → opts.backoff_min ≡ pos b
    → opts.backoff_max ≡ pos c
    → b < 2 ^ 63
    → b * 2 ^ n < 2 ^ 63
    → backoff opts (suc n) ≡ pos (min (b * 2 ^ n) c)
unfolding backoff
backoff_doubles opts b c n least most hb h =
    rw (least, most, pred-suc n, shifted_small b (2 ^ n) hb h) (ground arith)

-- One run from the top of the loop that fails to connect, from one instant to another.
unfoldable pub crash : Options → Spec → Text → ℕ × ℕ → Machine → Machine
crash opts spec err (t, now) m =
    settle opts t err now (connect spec t (connect_error err) (begin_run spec t m))

-- Runs that fail one after the other, the last one first.
unfoldable pub crashes : Options → Spec → Text → List (ℕ × ℕ) → Machine
unfolding crash
crashes opts spec err [] = new_machine
crashes opts spec err (r ∷ rs) = crash opts spec err r (crashes opts spec err rs)

module _ (opts : Options) (spec : Spec) (err : Text) where
  -- shorter than stable_after
  abbrev pub IsShort : ℕ × ℕ → Type 0
  IsShort (t, now) = int_leb opts.stable_after (time_sub now t) ≡ false

  pub crashes-count :
      (rs : List (ℕ × ℕ))
      → All IsShort rs
      → ((crashes opts spec err rs).up.failures ≡ length rs)
        × ((crashes opts spec err rs).cancelled ≡ false)
  unfolding crashes crash settle next_failures connect begin_run new_machine new_upstream set_state
  crashes-count [] h = (refl, refl)
  crashes-count (r ∷ rs) h = ground (arith, crashes-count rs)

  last_run :
      (n : ℕ) (rs : List (ℕ × ℕ))
      → suc (length rs) ≤ n
      → ltb (suc (length rs)) n ≡ false
      → n ≡ suc (length rs)
  last_run n rs small last = ground arith

  crashes-resting :
      (n : ℕ) (r : ℕ × ℕ) (rs : List (ℕ × ℕ))
      → opts.max_failures ≡ pos n
      → All IsShort (r ∷ rs)
      → suc (length rs) < n
      → ((crashes opts spec err (r ∷ rs)).up.state ≡ starting)
        × ((crashes opts spec err (r ∷ rs)).phase ≡ resting (backoff opts (suc (length rs))))
  unfolding crashes crash settle next_failures connect begin_run set_state
  crashes-resting n r rs limit h less = ground (arith, crashes-count rs)

  crashes-finished :
      (n : ℕ) (r : ℕ × ℕ) (rs : List (ℕ × ℕ))
      → opts.max_failures ≡ pos n
      → All IsShort (r ∷ rs)
      → n ≡ suc (length rs)
      → ((crashes opts spec err (r ∷ rs)).up.state ≡ failed)
        × ((crashes opts spec err (r ∷ rs)).phase ≡ finished)
  unfolding crashes crash settle next_failures connect begin_run set_state
  crashes-finished n r rs limit h equal = ground (arith, crashes-count rs)

  begin_run-connecting :
      (t : ℕ) (m : Machine)
      → spec.oauth ≡ false
      → (begin_run spec t (record m { phase = looping })).phase ≡ connecting t
  unfolding begin_run
  begin_run-connecting t m plain = ground arith

  -- one more run, of an upstream that asks no login, from the top of the loop
  crash-Reach :
      (r : ℕ × ℕ) (m : Machine)
      → spec.oauth ≡ false
      → Reach opts spec new_machine (record m { phase = looping })
      → Reach opts spec new_machine (crash opts spec err r m)
  unfolding crash begin_run connect
  crash-Reach (t, now) m plain r =
      next
        (next (next r (begin t refl)) (dial t (connect_error err) (begin_run-connecting t m plain)))
        (settles t err now refl)

  crashes-Reach :
      (n : ℕ) (rs : List (ℕ × ℕ))
      → spec.oauth ≡ false
      → opts.max_failures ≡ pos n
      → All IsShort rs
      → length rs ≤ n
      → Reach opts spec new_machine (crashes opts spec err rs)
  unfolding crashes new_machine
  crashes-Reach n [] plain limit h small = here
  crashes-Reach n (r ∷ []) plain limit h small = crash-Reach r new_machine plain here
  crashes-Reach n (r ∷ q ∷ rs) plain limit h small =
      crash-Reach r (crashes opts spec err (q ∷ rs)) plain (
        next (crashes-Reach n (q ∷ rs) plain limit h.1 (omega arith))
          (timer _ (crashes-resting n q rs limit h.1 (omega arith)).1))

  -- With max_failures = n > 0, and an upstream without oauth: runs that fail to connect, each of
  -- them shorter than stable_after, and no more than n, lead to a state that the loop reaches.
  -- After fewer than n of them it rests before the next run, in the state Starting, and after n it
  -- has given up, in the state Failed.
  pub crashes_give_up :
      (n : ℕ) (r : ℕ × ℕ) (rs : List (ℕ × ℕ))
      → spec.oauth ≡ false
      → opts.max_failures ≡ pos n
      → All IsShort (r ∷ rs)
      → suc (length rs) ≤ n
      → Reach opts spec new_machine (crashes opts spec err (r ∷ rs))
        × (((suc (length rs) < n)
              × ((crashes opts spec err (r ∷ rs)).up.state ≡ starting)
              × ((crashes opts spec err (r ∷ rs)).phase ≡ resting (backoff opts (suc (length rs)))))
            ⊎ ((n ≡ suc (length rs))
                × ((crashes opts spec err (r ∷ rs)).up.state ≡ failed)
                × ((crashes opts spec err (r ∷ rs)).phase ≡ finished)))
  crashes_give_up n r rs plain limit h small = (
    crashes-Reach n (r ∷ rs) plain limit h small,
    elim (Bool-cases (ltb (suc (length rs)) n)) [
      | inl less ↦
          let (state, phase) = crashes-resting n r rs limit h (ltb→lt _ _ less) in
          inl (ltb→lt _ _ less, state, phase)
      | inr last ↦
          let equal = last_run n rs small last in
          let (state, phase) = crashes-finished n r rs limit h equal in inr (equal, state, phase)
    ],
  )
