-- ===== src/Gateway/Breaker/Tests.antt =====
-- Runs of the breaker, and the theorems about it at concrete inputs.
use rusty_gateway.Common.{◌≤◌, ◌<◌, ◌≡◌, refl, ◌↔◌, false, some, List, [], ◌∷◌, arith}
use rusty_gateway.Common.Int.{pos}
use rusty_gateway.Gateway.Breaker.{
  BreakerConfig, Breaker, new_breaker, success, failure, state, closed,
}
use rusty_gateway.Gateway.Breaker.History.{
  BreakerCall, failed, succeeded, run, apply, consecutive, run-closed_iff,
}
use rusty_gateway.Gateway.Breaker.Trial.{granted, granted-le-one}

abbrev two_failures : BreakerConfig
two_failures = record { failures = pos 2; cooldown = pos 30 }

abbrev broken : List BreakerCall
broken = failed 1 ∷ succeeded ∷ failed 4 ∷ failed 5 ∷ []

abbrev open_at_five : Breaker
open_at_five = record { cfg = two_failures; failures = pos 2; opened_at = some 5; trial = false }

run-broken : run broken (new_breaker two_failures) ≡ open_at_five
unfolding run apply success failure new_breaker
run-broken = refl

run-closed_iff_example :
    (state (run broken (new_breaker two_failures)) ≡ closed) ↔ (consecutive broken 0 < 2)
run-closed_iff_example = run-closed_iff 2 two_failures broken (omega arith) refl (omega arith)

granted-le-one_example : granted (20 ∷ 40 ∷ 41 ∷ []) open_at_five ≤ 1
granted-le-one_example = granted-le-one (20 ∷ 40 ∷ 41 ∷ []) 5 open_at_five refl refl
