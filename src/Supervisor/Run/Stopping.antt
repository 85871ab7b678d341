-- ===== src/Supervisor/Run/Stopping.antt =====
-- How the run loop ends once its context is cancelled (internal/supervisor/supervisor.go, `Stop`,
-- `run` and `runOnce`).
use rusty_gateway.Common.{ℕ, ◌≡◌, refl, true, some, [], arith, ◌⊎◌, inl, inr}
use rusty_gateway.Common.Text.{Text, codes}
use rusty_gateway.Supervisor.{stopped, Spec, Options}
use rusty_gateway.Supervisor.Run.{
  Phase, looping, asking, parked, connecting, listing, serving, ended, resting, finished, Machine,
  Step, Reach, begin, ask, wake, dial, list, interrupted, settles, stops, here, next, end_run,
  settle, stop_resting, interrupt, begin_run, asked, waited, connect, list_tools, refused,
  connect_error, collect_pages, set_state,
}

module _ (opts : Options) (spec : Spec) where
  -- the loop is over, and the upstream is Stopped
  abbrev pub IsStopped : Machine → Type 0
  IsStopped m = (m.phase ≡ finished) × (m.up.state ≡ stopped)

  settle-IsStopped :
      (t : ℕ) (err : Text) (now : ℕ) (m : Machine)
      → m.cancelled ≡ true
      → IsStopped (settle opts t err now m)
  unfolding settle set_state
  settle-IsStopped t err now m c = ground arith

  abbrev pub Stops : Machine → Type 0
  Stops m = (n : Machine) × Reach opts spec m n × IsStopped n

  prepend : {m k : Machine} → Step opts spec m k → Stops k → Stops m
  prepend {m} {k} s (n, r, stop) = (n, join r, stop)
    where
      join : {n : Machine} → Reach opts spec k n → Reach opts spec m n
      join here = next here s
      join (next r q) = next (join r) q

  ended-Stops :
      (t : ℕ) (err : Text) (m : Machine) → m.phase ≡ ended t err → m.cancelled ≡ true → Stops m
  ended-Stops t err m at c =
      (settle opts t err t m, next here (settles t err t at), settle-IsStopped t err t m c)

  asking_or_connecting :
      (m : Machine)
      → ((begin_run spec 0 m).phase ≡ asking 0) ⊎ ((begin_run spec 0 m).phase ≡ connecting 0)
  unfolding begin_run
  asking_or_connecting m = ground arith

  begun-Stops : (m : Machine) → m.cancelled ≡ true → Stops (begin_run spec 0 m)
  unfolding asked connect begin_run
  begun-Stops m c = elim (asking_or_connecting m) [
    | inl at ↦ prepend (ask 0 (refused []) at) (ended-Stops 0 [] _ refl c)
    | inr at ↦ prepend (dial 0 (connect_error []) at) (ended-Stops 0 [] _ refl c)
  ]

  phase-Stops :
      (p : Phase) (m : Machine) → m.phase ≡ p → m.cancelled ≡ true → (m.phase ≡ finished) ⊎ Stops m
  unfolding asked waited connect collect_pages list_tools end_run interrupt stop_resting set_state
  phase-Stops looping m at c = inr (prepend (begin 0 at) (begun-Stops m c))
  phase-Stops (asking t) m at c = inr (prepend (ask t (refused []) at) (ended-Stops t [] _ refl c))
  phase-Stops (parked t) m at c = inr (prepend (wake t (some []) at) (ended-Stops t [] _ refl c))
  phase-Stops (connecting t) m at c =
      inr (prepend (dial t (connect_error []) at) (ended-Stops t [] _ refl c))
  phase-Stops (listing t v) m at c =
      inr (prepend (list t v [] at) (ended-Stops t (codes "tools/list") _ refl c))
  phase-Stops (serving t skip pinged) m at c =
      inr (
        prepend (interrupted t skip pinged at c)
          (ended-Stops t (codes "context canceled") _ refl c))
  phase-Stops (ended t err) m at c = inr (ended-Stops t err m at c)
  phase-Stops (resting d) m at c = inr (stop_resting m, next here (stops d at c), (refl, refl))
  phase-Stops finished m at c = inl at

  -- Once its context is cancelled, the run loop is over or can come to its end from wherever it
  -- stands, and then the upstream is Stopped.
  pub cancelled-Stops : (m : Machine) → m.cancelled ≡ true → (m.phase ≡ finished) ⊎ Stops m
  cancelled-Stops m c = phase-Stops m.phase m refl c
