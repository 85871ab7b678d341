-- ===== src/Gateway/Dispatch/Tests.antt =====
-- A run of a small gateway, and the theorems about `dispatch` at concrete inputs.
use rusty_gateway.Common.{
  ℕ, ◌≤◌, ◌<◌, ◌≡◌, ◌≢◌, refl, true, false, Option, none, some, List, [], ◌∷◌, ◌++◌, arith,
}
use rusty_gateway.Common.Int.{pos}
use rusty_gateway.Common.Text.{Text, codes}
use rusty_gateway.Gateway.Limits.{has_room}
use rusty_gateway.Gateway.Breaker.{BreakerConfig, Breaker, new_breaker, allow}
use rusty_gateway.Gateway.Dispatch.{
  Semaphore, global, of_namespace, of_server, Flight, Gate, new_flight, enter, acquire_one, leave,
  arrive, acquire, give_up, Reach, here, next,
}
use rusty_gateway.Gateway.Dispatch.Invariant.{IsIdle}
use rusty_gateway.Gateway.Dispatch.Progress.{
  inside, Reach-inside-le, Reach-used_zero, Reach-Advance, Advance,
}
use rusty_gateway.Gateway.Dispatch.LostTrial.{OnTrial, no_capacity, Abandons-refused}

abbrev ns : Text
ns = codes "personal"

abbrev id : Text
id = codes "personal/hevy"

abbrev two_one : Semaphore → Option ℕ
two_one global = some 2
two_one (of_namespace _) = none
two_one (of_server _) = some 1

abbrev config : BreakerConfig
config = record { failures = pos 1; cooldown = pos 30 }

abbrev idle : Gate
idle = record { limit = two_one; used = λ _. 0; breakers = λ _. new_breaker config; flights = [] }

abbrev called : Gate
called = (enter ns id 5 idle).0

abbrev tail_sems : List Semaphore
tail_sems = of_namespace ns ∷ of_server id ∷ []

abbrev one_acquired : Gate
one_acquired = acquire_one global tail_sems [] (new_flight ns id) [] called

called-flights : called.flights ≡ new_flight ns id ∷ []
unfolding enter allow new_breaker
called-flights = refl

called-Reach : Reach idle called
called-Reach = next here (arrive ns id 5)

one_acquired-Reach : Reach idle one_acquired
unfolding has_room enter allow new_breaker
one_acquired-Reach =
    next called-Reach (acquire [] (new_flight ns id) [] global tail_sems refl refl refl)

idle-IsIdle : IsIdle idle
idle-IsIdle = (refl, λ s. refl)

Reach-inside-le_example : inside global one_acquired.flights ≤ 2
unfolding acquire_one enter allow new_breaker
Reach-inside-le_example = Reach-inside-le global 2 idle-IsIdle one_acquired-Reach refl

abbrev given_up : Gate
given_up = leave [] (new_flight ns id) [] called

given_up-Reach : Reach idle given_up
unfolding enter allow new_breaker
given_up-Reach =
    next called-Reach (give_up [] (new_flight ns id) [] global tail_sems 2 refl refl refl)

Reach-used_zero_example : given_up.used global ≡ 0
unfolding leave enter allow new_breaker
Reach-used_zero_example = Reach-used_zero global 2 idle-IsIdle given_up-Reach refl refl

capacity : (s : Semaphore) (n : ℕ) → called.limit s ≡ some n → 0 < n
unfolding enter allow new_breaker
capacity global n e = ground arith
capacity (of_namespace x) n e = cc
capacity (of_server x) n e = ground arith

some_call : called.flights ≢ []
unfolding enter allow new_breaker
some_call e = cc

Reach-Advance_example : Advance called
Reach-Advance_example = Reach-Advance idle-IsIdle called-Reach capacity some_call

abbrev half_open : Breaker
half_open = record { cfg = config; failures = pos 1; opened_at = some 3; trial = true }

abbrev trial_call : Gate
trial_call = record {
  limit = two_one;
  used = λ _. 0;
  breakers = λ _. half_open;
  flights = new_flight ns id ∷ [];
}

only_one :
    (f : Flight) (before after : List Flight) → f ∷ [] ≡ before ++ f ∷ after → before ++ after ≡ []
only_one f [] after e = cc
only_one f (b ∷ []) after e = cc
only_one f (b ∷ c ∷ before) after e = cc

trial_call-OnTrial : OnTrial 3 (new_flight ns id) trial_call
trial_call-OnTrial = record {
  on = refl;
  opened = refl;
  trial = refl;
  alone = λ before after e. rw (only_one (new_flight ns id) before after e) tt;
}

abbrev lost : Gate
lost = leave [] (new_flight ns id) [] trial_call

Abandons-refused_example : (enter ns id 9000 lost).1 ≡ false
Abandons-refused_example =
    Abandons-refused 3 (new_flight ns id) ns 9000 trial_call-OnTrial
      (no_capacity [] [] global tail_sems refl refl) here
