-- ===== src/Gateway/Dispatch/Invariant.antt =====
-- What holds of the calls in flight in every reachable state (internal/gateway/gateway.go,
-- `dispatch`).
use rusty_gateway.Common.{
  ℕ, ◌+◌, ◌≤◌, ◌≡◌, refl, true, some, List, [], ◌∷◌, ◌++◌, ◌⊎◌, inl, inr, Bool-cases, All, arith,
  subst, sym, ap, ◌∙◌,
}
use rusty_gateway.Common.Text.{Text}
use rusty_gateway.Gateway.Limits.{has_room, acquired}
use rusty_gateway.Gateway.Breaker.{allow}
use rusty_gateway.Gateway.Dispatch.{
  Semaphore, global, of_namespace, of_server, Flight, Gate, set_used, take_sem, enter, acquire_one,
  leave, answer, Step, arrive, acquire, give_up, reply, Reach, here, next, Reply,
}
use rusty_gateway.Gateway.Dispatch.Counting.{
  count, holders, holders-split, release_all-used, sem_eq_sound,
}

-- A call has acquired a part of its three semaphores, in their order.
abbrev pub Shape : Flight → Type 0
Shape f =
    ((f.waiting ≡ global ∷ of_namespace f.namespace ∷ of_server f.server ∷ []) × (f.held ≡ []))
    ⊎ ((f.waiting ≡ of_namespace f.namespace ∷ of_server f.server ∷ []) × (f.held ≡ global ∷ []))
    ⊎ ((f.waiting ≡ of_server f.server ∷ []) × (f.held ≡ of_namespace f.namespace ∷ global ∷ []))
    ⊎ ((f.waiting ≡ []) × (f.held ≡ of_server f.server ∷ of_namespace f.namespace ∷ global ∷ []))

pub record GateInv (g : Gate) : Type 0 where
  pub shaped : All Shape g.flights
  -- each limited semaphore holds one value for each call that holds it, and no more than fit
  pub accounted : (s : Semaphore) (n : ℕ) → g.limit s ≡ some n → g.used s ≡ holders s g.flights
  pub bounded : (s : Semaphore) (n : ℕ) → g.limit s ≡ some n → g.used s ≤ n

pub All-split :
    (P : Flight → Type 0) (before : List Flight) (f : Flight) (after : List Flight)
    → All P (before ++ f ∷ after)
    → P f × All P (before ++ after)
All-split P [] f after h = h
All-split P (b ∷ before) f after h =
    let (pf, rest) = All-split P before f after h.1 in (pf, (h.0, rest))

pub All-join :
    (P : Flight → Type 0) (before : List Flight) (f : Flight) (after : List Flight)
    → P f
    → All P (before ++ after)
    → All P (before ++ f ∷ after)
All-join P [] f after pf h = (pf, h)
All-join P (b ∷ before) f after pf h = (h.0, All-join P before f after pf h.1)

take_sem-Shape :
    (f : Flight) (s : Semaphore) (ws : List Semaphore)
    → f.waiting ≡ s ∷ ws
    → Shape f
    → Shape (take_sem s ws f)
unfolding take_sem
take_sem-Shape f s ws e h = grind arith

enter-GateInv : (ns id : Text) (now : ℕ) (g : Gate) → GateInv g → GateInv (enter ns id now g).0
unfolding enter holders count
enter-GateInv ns id now g v = elim (Bool-cases (allow now (g.breakers id)).1) [
  | inl passed ↦ rw (passed) (record {
    shaped = (inl (refl, refl), v.shaped);
    accounted = λ s n lim. omega (arith, v.accounted s n lim);
    bounded = v.bounded;
  })
  | inr refused ↦
      rw (refused) (record { shaped = v.shaped; accounted = v.accounted; bounded = v.bounded })
]

module _ (before : List Flight) (f : Flight) (after : List Flight) (g : Gate)
    (e : g.flights ≡ before ++ f ∷ after) (v : GateInv g) where
  shaped-split : Shape f × All Shape (before ++ after)
  shaped-split = All-split Shape before f after (subst (All Shape) e v.shaped)

  accounted-split :
      (r : Semaphore) (n : ℕ)
      → g.limit r ≡ some n
      → g.used r ≡ count r f.held + holders r (before ++ after)
  accounted-split r n lim = v.accounted r n lim ∙ ap (holders r) e ∙ holders-split r before f after

  acquire_one-used :
      (s : Semaphore) (ws : List Semaphore) (r : Semaphore) (n : ℕ)
      → g.limit r ≡ some n
      → set_used s (acquired (g.limit s) (g.used s)) g.used r
        ≡ count r (take_sem s ws f).held + holders r (before ++ after)
  unfolding acquired take_sem count
  acquire_one-used s ws r n lim = ground (arith, sem_eq_sound s r, accounted-split r n lim)

  acquire_one-GateInv :
      (s : Semaphore) (ws : List Semaphore)
      → f.waiting ≡ s ∷ ws
      → has_room (g.limit s) (g.used s) ≡ true
      → GateInv (acquire_one s ws before f after g)
  unfolding acquire_one
  acquire_one-GateInv s ws w room = record {
    shaped =
        All-join Shape before (take_sem s ws f) after (take_sem-Shape f s ws w shaped-split.0)
          shaped-split.1;
    accounted = λ r n lim.
        acquire_one-used s ws r n lim ∙ sym (holders-split r before (take_sem s ws f) after);
    bounded =
        λ r n lim. unfold has_room acquired in ground (arith, sem_eq_sound s r, v.bounded r n lim);
  }

  leave-GateInv : GateInv (leave before f after g)
  unfolding leave
  leave-GateInv = record {
    shaped = shaped-split.1;
    accounted = λ r n lim. omega (
      arith,
      release_all-used g.limit f.held g.used r n lim (omega (arith, accounted-split r n lim)),
      accounted-split r n lim,
    );
    bounded = λ r n lim. omega (
      arith,
      release_all-used g.limit f.held g.used r n lim (omega (arith, accounted-split r n lim)),
      v.bounded r n lim,
    );
  }

  answer-GateInv : (r : Reply) (now : ℕ) → GateInv (answer r now before f after g)
  unfolding answer
  answer-GateInv r now = record {
    shaped = leave-GateInv.shaped;
    accounted = leave-GateInv.accounted;
    bounded = leave-GateInv.bounded;
  }

Step-GateInv : {g h : Gate} → Step g h → GateInv g → GateInv h
Step-GateInv {g} (arrive ns id now) v = enter-GateInv ns id now g v
Step-GateInv {g} (acquire before f after s ws e w room) v =
    acquire_one-GateInv before f after g e v s ws w room
Step-GateInv {g} (give_up before f after s ws n e w lim) v = leave-GateInv before f after g e v
Step-GateInv {g} (reply before f after r now e w) v = answer-GateInv before f after g e v r now

-- An idle gateway: nothing in flight and nothing acquired.
abbrev pub IsIdle : Gate → Type 0
IsIdle g = (g.flights ≡ []) × ((s : Semaphore) → g.used s ≡ 0)

IsIdle-GateInv : (g : Gate) → IsIdle g → GateInv g
unfolding holders
IsIdle-GateInv g (none_in_flight, unused) = record {
  shaped = rw none_in_flight tt;
  accounted = λ s n lim. rw none_in_flight (unused s);
  bounded = λ s n lim. omega (arith, unused s);
}

pub Reach-GateInv : {g h : Gate} → IsIdle g → Reach g h → GateInv h
Reach-GateInv {g} idle here = IsIdle-GateInv g idle
Reach-GateInv idle (next r st) = Step-GateInv st (Reach-GateInv idle r)
