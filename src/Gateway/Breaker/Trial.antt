-- ===== src/Gateway/Breaker/Trial.antt =====
-- How the breaker of internal/gateway/limits.go lets trial calls through.
use rusty_gateway.Common.{
  ℕ, suc, ◌+◌, ◌≤◌, ◌<◌, ◌≡◌, refl, ◌⊎◌, inl, inr, true, false, some, List, [], ◌∷◌, leb, ◌&&◌,
  arith, if◌then◌else◌,
}
use rusty_gateway.Common.Int.{pos, max_int}
use rusty_gateway.Gateway.Breaker.{Breaker, disabled, allow, failure, state, half_open, opened}

-- How many of the calls that ask at the given instants are let through, with no outcome reported
-- between them.
unfoldable pub granted : List ℕ → Breaker → ℕ
granted [] b = 0
granted (now ∷ later) b =
    let (b', ok) = allow now b in let rest = granted later b' in if ok then suc rest else rest

-- An enabled breaker with a trial under way answers no, and does not change.
pub allow-trial :
    (now t : ℕ) (b : Breaker)
    → disabled b ≡ false
    → b.opened_at ≡ some t
    → b.trial ≡ true
    → allow now b ≡ (b, false)
unfolding allow
allow-trial now t b on since busy = ground arith

granted-trial :
    (times : List ℕ) (t : ℕ) (b : Breaker)
    → disabled b ≡ false
    → b.opened_at ≡ some t
    → b.trial ≡ true
    → granted times b ≡ 0
unfolding granted
granted-trial [] t b on since busy = refl
granted-trial (now ∷ later) t b on since busy =
    rw (allow-trial now t b on since busy) (granted-trial later t b on since busy)

allow-open :
    (now t : ℕ) (b : Breaker)
    → disabled b ≡ false
    → b.opened_at ≡ some t
    → ((allow now b).1 ≡ false) × ((allow now b).0 ≡ b)
      ⊎ ((allow now b).1 ≡ true) × ((allow now b).0 ≡ record b { trial = true })
unfolding allow
allow-open now t b on since = ground arith

-- However many calls ask while an enabled breaker is open, at most one of them is let through
-- until an outcome is reported.
pub granted-le-one :
    (times : List ℕ) (t : ℕ) (b : Breaker)
    → disabled b ≡ false
    → b.opened_at ≡ some t
    → granted times b ≤ 1
unfolding granted
granted-le-one [] t b on since = omega arith
granted-le-one (now ∷ later) t b on since = elim (allow-open now t b on since) [
  | inl refused ↦ ground (arith, refused, granted-le-one later t b on since)
  | inr passed ↦
      ground (arith, passed, granted-trial later t (record b { trial = true }) on since refl)
]

-- With a threshold of n > 0 and a cooldown of c nanoseconds, a failure at instant t that brings
-- the count to at least n makes the breaker refuse a call at an instant from t up to t + c, staying open, and pass a call
-- from t + c on, becoming half open; and of two calls that follow it at most one is let through.
pub failure-cooldown :
    (n k c t now later : ℕ) (b : Breaker)
    → b.cfg.failures ≡ pos n
    → b.failures ≡ pos k
    → b.cfg.cooldown ≡ pos c
    → 0 < n
    → n ≤ suc k
    → k < max_int
    → t ≤ now
    → c ≤ max_int
    → ((allow now (failure t b)).1 ≡ leb (t + c) now)
      × (state (allow now (failure t b)).0 ≡ (if leb (t + c) now then half_open else opened))
      × (((allow now (failure t b)).1 && (allow later (allow now (failure t b)).0).1) ≡ false)
unfolding failure state allow
failure-cooldown n k c t now later b en ek ec h hk kmax le small = ground arith
