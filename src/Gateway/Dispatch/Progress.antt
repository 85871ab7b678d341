-- ===== src/Gateway/Dispatch/Progress.antt =====
-- The calls in flight stay within the limits, give back what they acquired, and never block each
-- other (internal/gateway/gateway.go, `dispatch`).
use rusty_gateway.Common.{
  ℕ, ◌+◌, ◌≤◌, ◌<◌, ◌≡◌, ◌≢◌, refl, Bool, true, false, ◌&&◌, some, List, [], ◌∷◌, ◌++◌, ◌⊎◌, inl,
  inr, Bool-cases, Option-cases, All, arith, ◌==◌, length, is_nil, if◌then◌else◌, ap, subst, ◌∙◌,
}
use rusty_gateway.Common.Text.{Text, text_eq}
use rusty_gateway.Gateway.Limits.{has_room}
use rusty_gateway.Gateway.Dispatch.{
  Semaphore, global, of_namespace, of_server, sem_eq, Flight, Gate, Reach,
}
use rusty_gateway.Gateway.Dispatch.Counting.{count, holders}
use rusty_gateway.Gateway.Dispatch.Invariant.{Shape, All-split, GateInv, IsIdle, Reach-GateInv}

-- Which calls a semaphore limits.
unfoldable pub belongs : Semaphore → Flight → Bool
belongs global f = true
belongs (of_namespace ns) f = text_eq f.namespace ns
belongs (of_server id) f = text_eq f.server id

-- How many of them are inside `u.CallTool`.
unfoldable pub inside : Semaphore → List Flight → ℕ
unfolding belongs
inside s [] = 0
inside s (f ∷ fs) = (if is_nil f.waiting && belongs s f then 1 else 0) + inside s fs

one_inside :
    (s : Semaphore) (f : Flight)
    → Shape f
    → (if is_nil f.waiting && belongs s f then 1 else 0) ≤ count s f.held
unfolding belongs count sem_eq
one_inside global f sh = ground arith
one_inside (of_namespace ns) f sh = ground arith
one_inside (of_server id) f sh = ground arith

inside-le-holders : (s : Semaphore) (fs : List Flight) → All Shape fs → inside s fs ≤ holders s fs
unfolding inside holders
inside-le-holders s [] h = omega arith
inside-le-holders s (f ∷ fs) h = omega (arith, one_inside s f h.0, inside-le-holders s fs h.1)

-- In every state that an idle gateway reaches, at most n calls are inside the upstream call of
-- those that a semaphore of capacity n limits: all calls, those of a namespace, or those of an
-- upstream.
pub Reach-inside-le :
    {g h : Gate} (s : Semaphore) (n : ℕ)
    → IsIdle g
    → Reach g h
    → h.limit s ≡ some n
    → inside s h.flights ≤ n
Reach-inside-le {h} s n idle r lim =
    let v = Reach-GateInv idle r in
    omega (arith, inside-le-holders s h.flights v.shaped, v.accounted s n lim, v.bounded s n lim)

-- Whenever a gateway that was idle has no call in flight again, however the calls ended, every
-- limited semaphore is empty: no capacity is lost.
pub Reach-used_zero :
    {g h : Gate} (s : Semaphore) (n : ℕ)
    → IsIdle g
    → Reach g h
    → h.limit s ≡ some n
    → h.flights ≡ []
    → h.used s ≡ 0
unfolding holders
Reach-used_zero s n idle r lim quiet =
    (Reach-GateInv idle r).accounted s n lim ∙ ap (holders s) quiet

-- A call in flight can go on: it can acquire what it waits for, or its upstream call can return.
pub data Advance (h : Gate) : Type 0 where
  may_acquire :
      (before : List Flight) (f : Flight) (after : List Flight) (s : Semaphore)
      (ws : List Semaphore)
      → h.flights ≡ before ++ f ∷ after
      → f.waiting ≡ s ∷ ws
      → has_room (h.limit s) (h.used s) ≡ true
      → Advance h
  may_return :
      (before : List Flight) (f : Flight) (after : List Flight)
      → h.flights ≡ before ++ f ∷ after
      → f.waiting ≡ []
      → Advance h

abbrev waits_for : ℕ → Flight → Bool
waits_for k f = length f.waiting == k

abbrev Found : ℕ → List Flight → Type 0
Found k fs =
    (before : List Flight) × (f : Flight) × (after : List Flight) × (fs ≡ before ++ f ∷ after)
    × (waits_for k f ≡ true)

find : (k : ℕ) (fs : List Flight) → Found k fs ⊎ All (λ f. waits_for k f ≡ false) fs
find k [] = inr tt
find k (f ∷ fs) = elim (Bool-cases (waits_for k f)) [
  | inl here ↦ inl ([], f, fs, refl, here)
  | inr other ↦ elim (find k fs) [
    | inl (before, g, after, e, h) ↦ inl (f ∷ before, g, after, ap (λ l. f ∷ l) e, h)
    | inr rest ↦ inr (other, rest)
  ]
]

holders-eq-zero :
    (s : Semaphore) (fs : List Flight) → All (λ f. count s f.held ≡ 0) fs → holders s fs ≡ 0
unfolding holders
holders-eq-zero s [] h = refl
holders-eq-zero s (f ∷ fs) h = omega (arith, h.0, holders-eq-zero s fs h.1)

-- What a call does not hold yet, by what it waits for.
server_unheld :
    (id : Text) (fs : List Flight)
    → All Shape fs
    → All (λ f. waits_for 0 f ≡ false) fs
    → All (λ f. count (of_server id) f.held ≡ 0) fs
unfolding count sem_eq
server_unheld id [] sh h = tt
server_unheld id (f ∷ fs) sh h = (ground (arith, sh.0, h.0), server_unheld id fs sh.1 h.1)

namespace_unheld :
    (ns : Text) (fs : List Flight)
    → All Shape fs
    → All (λ f. waits_for 0 f ≡ false) fs
    → All (λ f. waits_for 1 f ≡ false) fs
    → All (λ f. count (of_namespace ns) f.held ≡ 0) fs
unfolding count sem_eq
namespace_unheld ns [] sh h k = tt
namespace_unheld ns (f ∷ fs) sh h k =
    (ground (arith, sh.0, h.0, k.0), namespace_unheld ns fs sh.1 h.1 k.1)

global_unheld :
    (fs : List Flight)
    → All Shape fs
    → All (λ f. waits_for 0 f ≡ false) fs
    → All (λ f. waits_for 1 f ≡ false) fs
    → All (λ f. waits_for 2 f ≡ false) fs
    → All (λ f. count global f.held ≡ 0) fs
unfolding count sem_eq
global_unheld [] sh h k l = tt
global_unheld (f ∷ fs) sh h k l =
    (ground (arith, sh.0, h.0, k.0, l.0), global_unheld fs sh.1 h.1 k.1 l.1)

waiting_none : (f : Flight) → waits_for 0 f ≡ true → f.waiting ≡ []
waiting_none f w = ground arith

waiting_one : (f : Flight) → Shape f → waits_for 1 f ≡ true → f.waiting ≡ of_server f.server ∷ []
waiting_one f sh w = ground arith

waiting_two :
    (f : Flight)
    → Shape f
    → waits_for 2 f ≡ true
    → f.waiting ≡ of_namespace f.namespace ∷ of_server f.server ∷ []
waiting_two f sh w = ground arith

waiting_three :
    (f : Flight)
    → Shape f
    → waits_for 3 f ≡ true
    → f.waiting ≡ global ∷ of_namespace f.namespace ∷ of_server f.server ∷ []
waiting_three f sh w = ground arith

flights_nil :
    (fs : List Flight)
    → All Shape fs
    → All (λ f. waits_for 0 f ≡ false) fs
    → All (λ f. waits_for 1 f ≡ false) fs
    → All (λ f. waits_for 2 f ≡ false) fs
    → All (λ f. waits_for 3 f ≡ false) fs
    → fs ≡ []
flights_nil [] sh a b c d = refl
flights_nil (f ∷ fs) sh a b c d = absurd (ground (arith, sh.0, a.0, b.0, c.0, d.0))

module _ {h : Gate} (v : GateInv h)
    (capacity : (s : Semaphore) (n : ℕ) → h.limit s ≡ some n → 0 < n) where
  room :
      (s : Semaphore)
      → All (λ f. count s f.held ≡ 0) h.flights
      → has_room (h.limit s) (h.used s) ≡ true
  unfolding has_room
  room s unheld = elim (Option-cases (h.limit s)) [
    | inl unlimited ↦ rw unlimited
    | inr (n, lim) ↦
        ground (arith, lim, capacity s n, v.accounted s n, holders-eq-zero s h.flights unheld)
  ]

  shaped_at :
      (before : List Flight) (f : Flight) (after : List Flight)
      → h.flights ≡ before ++ f ∷ after
      → Shape f
  shaped_at before f after e = (All-split Shape before f after (subst (All Shape) e v.shaped)).0

  none_waits :
      All (λ f. waits_for 0 f ≡ false) h.flights
      → All (λ f. waits_for 1 f ≡ false) h.flights
      → All (λ f. waits_for 2 f ≡ false) h.flights
      → All (λ f. waits_for 3 f ≡ false) h.flights
      → h.flights ≡ []
  none_waits = flights_nil h.flights v.shaped

  go_on_global :
      All (λ f. waits_for 0 f ≡ false) h.flights
      → All (λ f. waits_for 1 f ≡ false) h.flights
      → All (λ f. waits_for 2 f ≡ false) h.flights
      → h.flights ≢ []
      → Advance h
  go_on_global z o t some_call = elim (find 3 h.flights) [
    | inl (before, f, after, e, w) ↦
        may_acquire before f after global _ e (waiting_three f (shaped_at before f after e) w)
          (room global (global_unheld h.flights v.shaped z o t))
    | inr no_three ↦ absurd (some_call (none_waits z o t no_three))
  ]

  go_on_namespace :
      All (λ f. waits_for 0 f ≡ false) h.flights
      → All (λ f. waits_for 1 f ≡ false) h.flights
      → h.flights ≢ []
      → Advance h
  go_on_namespace z o some_call = elim (find 2 h.flights) [
    | inl (before, f, after, e, w) ↦
        may_acquire before f after (of_namespace f.namespace) _ e
          (waiting_two f (shaped_at before f after e) w)
          (room (of_namespace f.namespace) (namespace_unheld f.namespace h.flights v.shaped z o))
    | inr no_two ↦ go_on_global z o no_two some_call
  ]

  go_on_server : All (λ f. waits_for 0 f ≡ false) h.flights → h.flights ≢ [] → Advance h
  go_on_server z some_call = elim (find 1 h.flights) [
    | inl (before, f, after, e, w) ↦
        may_acquire before f after (of_server f.server) _ e
          (waiting_one f (shaped_at before f after e) w)
          (room (of_server f.server) (server_unheld f.server h.flights v.shaped z))
    | inr no_one ↦ go_on_namespace z no_one some_call
  ]

  go_on : h.flights ≢ [] → Advance h
  go_on some_call = elim (find 0 h.flights) [
    | inl (before, f, after, e, w) ↦ may_return before f after e (waiting_none f w)
    | inr no_zero ↦ go_on_server no_zero some_call
  ]

-- No deadlock: in every state that an idle gateway reaches with calls in flight, one of the calls
-- can go on without waiting for another, provided that every limited semaphore has a capacity of
-- at least one.
pub Reach-Advance :
    {g h : Gate}
    → IsIdle g
    → Reach g h
    → ((s : Semaphore) (n : ℕ) → h.limit s ≡ some n → 0 < n)
    → h.flights ≢ []
    → Advance h
Reach-Advance idle r capacity some_call = go_on (Reach-GateInv idle r) capacity some_call
