-- ===== src/Gateway/Dispatch/Counting.antt =====
-- How many semaphore values the calls in flight hold (internal/gateway/gateway.go, `dispatch`).
use rusty_gateway.Common.{
  ℕ, ◌+◌, ◌-◌, ◌≤◌, ◌≡◌, refl, true, Option, some, List, [], ◌∷◌, ◌++◌, arith, if◌then◌else◌, ap,
  inl, inr, Bool-cases,
}
use rusty_gateway.Common.Text.{text_eq_iff, text_eq_refl}
use rusty_gateway.Gateway.Limits.{released}
use rusty_gateway.Gateway.Dispatch.{
  Semaphore, global, of_namespace, of_server, sem_eq, Flight, set_used, release_all,
}

pub sem_eq_refl : (s : Semaphore) → sem_eq s s ≡ true
unfolding sem_eq
sem_eq_refl global = refl
sem_eq_refl (of_namespace a) = text_eq_refl a
sem_eq_refl (of_server a) = text_eq_refl a

pub sem_eq_sound : (s r : Semaphore) → sem_eq s r ≡ true → s ≡ r
unfolding sem_eq
sem_eq_sound global global h = refl
sem_eq_sound (of_namespace a) (of_namespace b) h = ap of_namespace ((text_eq_iff a b).0 h)
sem_eq_sound (of_server a) (of_server b) h = ap of_server ((text_eq_iff a b).0 h)
sem_eq_sound _ _ h = cc

-- How often `s` stands in a list.
unfoldable pub count : Semaphore → List Semaphore → ℕ
count s [] = 0
count s (r ∷ rs) = (if sem_eq r s then 1 else 0) + count s rs

unfoldable pub holders : Semaphore → List Flight → ℕ
unfolding count
holders s [] = 0
holders s (f ∷ fs) = count s f.held + holders s fs

pub holders-append :
    (s : Semaphore) (fs gs : List Flight) → holders s (fs ++ gs) ≡ holders s fs + holders s gs
unfolding holders
holders-append s [] gs = omega arith
holders-append s (f ∷ fs) gs = omega (arith, holders-append s fs gs)

pub holders-split :
    (s : Semaphore) (before : List Flight) (f : Flight) (after : List Flight)
    → holders s (before ++ f ∷ after) ≡ count s f.held + holders s (before ++ after)
unfolding holders
holders-split s before f after =
    omega (arith, holders-append s before (f ∷ after), holders-append s before after)

-- Releasing what a list holds takes that often a value from each limited semaphore.
pub release_all-used :
    (limit : Semaphore → Option ℕ) (held : List Semaphore) (used : Semaphore → ℕ) (s : Semaphore)
    (n : ℕ)
    → limit s ≡ some n
    → count s held ≤ used s
    → release_all limit held used s ≡ used s - count s held
unfolding release_all count released
release_all-used limit [] used s n lim le = omega arith
release_all-used limit (r ∷ held) used s n lim le = elim (Bool-cases (sem_eq r s)) [
  | inl same ↦ ground (
    arith,
    sem_eq_sound r s same,
    release_all-used limit held (set_used r (released (limit r) (used r)) used) s n lim,
  )
  | inr other ↦
      ground
        (arith, release_all-used limit held (set_used r (released (limit r) (used r)) used) s n lim)
]
