-- ===== src/Gateway/Limits.antt =====
-- The limits and the semaphores of internal/gateway/limits.go.
use rusty_gateway.Common.{
  ℕ, suc, ◌-◌, ◌<◌, ◌≡◌, Bool, Option, none, some, Assoc, lookup, ltb, arith, if◌then◌else◌,
}
use rusty_gateway.Common.Int.{ℤ, pos, negsuc, int_ltb}
use rusty_gateway.Common.Text.{Text}

-- Durations are in nanoseconds.
pub record Limits : Type 0 where
  pub call_timeout : ℤ
  pub max_concurrent : ℤ
  pub per_namespace : ℤ
  pub per_server : ℤ
  pub namespace_concurrency : Assoc ℤ
  pub server_concurrency : Assoc ℤ
  pub server_timeout : Assoc ℤ

-- `if v, ok := m[k]; ok && v > 0 { return v }; return d`
unfoldable pub override : Option ℤ → ℤ → ℤ
override none d = d
override (some v) d = if int_ltb (pos 0) v then v else d

unfoldable pub namespace_limit : Limits → Text → ℤ
unfolding override
namespace_limit l ns = override (lookup ns l.namespace_concurrency) l.per_namespace

unfoldable pub server_limit : Limits → Text → ℤ
unfolding override
server_limit l id = override (lookup id l.server_concurrency) l.per_server

unfoldable pub timeout : Limits → Text → ℤ
unfolding override
timeout l id = override (lookup id l.server_timeout) l.call_timeout

-- The capacity of the channel that `newSemaphore` makes; `none` is the nil channel.
unfoldable pub new_semaphore : ℤ → Option ℕ
new_semaphore (pos n) = if ltb 0 n then some n else none
new_semaphore (negsuc n) = none

-- What can happen to `acquire` at a channel of this capacity that holds `used` values: the nil
-- channel is never waited for, a full one is.
unfoldable pub has_room : Option ℕ → ℕ → Bool
has_room none used = Bool.true
has_room (some n) used = ltb used n

-- a value sent to the channel, and one received from it
unfoldable pub acquired : Option ℕ → ℕ → ℕ
acquired none used = used
acquired (some n) used = suc used

unfoldable pub released : Option ℕ → ℕ → ℕ
released none used = used
released (some n) used = used - 1

pub new_semaphore_pos : (v : ℤ) (n : ℕ) → new_semaphore v ≡ some n → 0 < n
unfolding new_semaphore
new_semaphore_pos (pos m) n h = ground arith
new_semaphore_pos (negsuc m) n h = ground arith
