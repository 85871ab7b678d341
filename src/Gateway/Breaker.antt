-- ===== src/Gateway/Breaker.antt =====
-- The circuit breaker of internal/gateway/limits.go. Each method runs under the mutex, so an
-- interleaving of calls is a sequence of these operations. The clock `b.now` is an argument, in
-- nanoseconds; the zero `openedAt` is `none`.
pub mod History
pub mod Trial
mod Tests
use rusty_gateway.Common.{ℕ, Bool, true, false, ◌||◌, Option, none, some, if◌then◌else◌}
use rusty_gateway.Common.Int.{ℤ, pos, int_ltb, int_leb, int_inc, time_sub}

pub record BreakerConfig : Type 0 where
  pub failures : ℤ
  pub cooldown : ℤ

pub record Breaker : Type 0 where
  pub cfg : BreakerConfig
  pub failures : ℤ
  pub opened_at : Option ℕ
  pub trial : Bool

unfoldable pub new_breaker : BreakerConfig → Breaker
new_breaker cfg = record { cfg = cfg; failures = pos 0; opened_at = none; trial = false }

-- b.cfg.Failures <= 0
abbrev pub disabled : Breaker → Bool
disabled b = int_leb b.cfg.failures (pos 0)

-- allow past the check of `openedAt.IsZero()`
allow_opened : Option ℕ → ℕ → Breaker → Breaker × Bool
allow_opened none now b = (b, true)
allow_opened (some t) now b =
    if int_ltb (time_sub now t) b.cfg.cooldown || b.trial
    then (b, false)
    else (record b { trial = true }, true)

unfoldable pub allow : ℕ → Breaker → Breaker × Bool
unfolding allow_opened
allow now b = if disabled b then (b, true) else allow_opened b.opened_at now b

unfoldable pub success : Breaker → Breaker
success b = if disabled b then b else record b { failures = pos 0; opened_at = none; trial = false }

unfoldable pub failure : ℕ → Breaker → Breaker
failure now b =
    if disabled b
    then b
    else let n = int_inc b.failures in
      record b {
        failures = n;
        opened_at = if int_leb b.cfg.failures n then some now else b.opened_at;
        trial = false;
      }

pub data BreakerState : Type 0 where
  off closed half_open opened : BreakerState

state_opened : Option ℕ → Bool → BreakerState
state_opened none trial = closed
state_opened (some t) true = half_open
state_opened (some t) false = opened

-- `off` is the text "disabled"
unfoldable pub state : Breaker → BreakerState
unfolding state_opened
state b = if disabled b then off else state_opened b.opened_at b.trial
