-- ===== src/Gateway/Breaker/History.antt =====
-- The breaker of internal/gateway/limits.go against the history of its calls.
use rusty_gateway.Common.{
  ℕ, suc, ◌≤◌, ◌<◌, ◌+◌, ◌≡◌, ◌↔◌, Bool, true, false, Option, none, some, List, [], ◌∷◌, length,
  leb, arith,
}
use rusty_gateway.Common.Int.{pos, max_int}
use rusty_gateway.Gateway.Breaker.{
  BreakerConfig, Breaker, new_breaker, allow, success, failure, state, closed,
}

-- One call of a method, with the clock reading that it sees.
pub data BreakerCall : Type 0 where
  allowed : ℕ → BreakerCall
  succeeded : BreakerCall
  failed : ℕ → BreakerCall

unfoldable pub apply : BreakerCall → Breaker → Breaker
apply (allowed now) b = (allow now b).0
apply succeeded b = success b
apply (failed now) b = failure now b

unfoldable pub run : List BreakerCall → Breaker → Breaker
run [] b = b
run (c ∷ cs) b = run cs (apply c b)

-- The specification: how many failures stand at the end of the history with no success after.
unfoldable pub count_failure : BreakerCall → ℕ → ℕ
count_failure (allowed _) k = k
count_failure succeeded k = 0
count_failure (failed _) k = suc k

unfoldable pub consecutive : List BreakerCall → ℕ → ℕ
unfolding count_failure
consecutive [] k = k
consecutive (c ∷ cs) k = consecutive cs (count_failure c k)

abbrev is_some : Option ℕ → Bool
is_some none = false
is_some (some t) = true

record Tracks (n k : ℕ) (b : Breaker) : Type 0 where
  enabled : b.cfg.failures ≡ pos n
  counted : b.failures ≡ pos k
  opened : is_some b.opened_at ≡ leb n k
  trial_open : b.trial ≡ true → n ≤ k

apply-Tracks :
    (n k : ℕ) (c : BreakerCall) {b : Breaker}
    → 0 < n
    → k < max_int
    → Tracks n k b
    → Tracks n (count_failure c k) (apply c b)
unfolding apply allow success failure count_failure
apply-Tracks n k (allowed now) h small t = ground arith
apply-Tracks n k succeeded h small t = ground arith
apply-Tracks n k (failed now) h small t = ground arith

count_failure-le : (c : BreakerCall) (k : ℕ) → count_failure c k ≤ suc k
unfolding count_failure
count_failure-le (allowed now) k = omega arith
count_failure-le succeeded k = omega arith
count_failure-le (failed now) k = omega arith

run-Tracks :
    (n k : ℕ) (cs : List BreakerCall) (b : Breaker)
    → 0 < n
    → k + length cs ≤ max_int
    → Tracks n k b
    → Tracks n (consecutive cs k) (run cs b)
unfolding run consecutive
run-Tracks n k [] b h small t = t
run-Tracks n k (c ∷ cs) b h small t =
    run-Tracks n (count_failure c k) cs (apply c b) h (omega (arith, count_failure-le c k))
      (apply-Tracks n k c h (omega arith) t)

Tracks-state : (n k : ℕ) {b : Breaker} → 0 < n → Tracks n k b → (state b ≡ closed) ↔ (k < n)
unfolding state
Tracks-state n k h t = ground arith

new-Tracks :
    (n : ℕ) (cfg : BreakerConfig) → 0 < n → cfg.failures ≡ pos n → Tracks n 0 (new_breaker cfg)
unfolding new_breaker
new-Tracks n cfg h e = ground arith

-- With a threshold of n > 0, and after any sequence of at most 2^63 - 1 calls of the methods of a
-- new breaker, the state is closed exactly when fewer than n failures have been reported since
-- the last success.
pub run-closed_iff :
    (n : ℕ) (cfg : BreakerConfig) (cs : List BreakerCall)
    → 0 < n
    → cfg.failures ≡ pos n
    → length cs ≤ max_int
    → (state (run cs (new_breaker cfg)) ≡ closed) ↔ (consecutive cs 0 < n)
run-closed_iff n cfg cs h e small =
    Tracks-state n (consecutive cs 0) h
      (run-Tracks n 0 cs (new_breaker cfg) h (omega arith) (new-Tracks n cfg h e))
