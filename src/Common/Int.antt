-- ===== src/Common/Int.antt =====
-- Go's `int`, `int64` and `time.Duration`: signed 64-bit integers. `negsuc n` is -(n + 1).
use Prim.Native.Nat.{ℕ, zero, suc, ◌+◌, ◌-◌, ◌^◌, ◌%◌}
use mathlib.Core.Bool.{Bool}
use rusty_gateway.Common.Tests.{ltb, leb, ◌==◌, if◌then◌else◌}

pub data ℤ : Type 0 where
  pos : ℕ → ℤ
  negsuc : ℕ → ℤ

abbrev pub pos_part : ℤ → ℕ
pos_part (pos n) = n
pos_part (negsuc n) = 0

abbrev pub neg_part : ℤ → ℕ
neg_part (pos n) = 0
neg_part (negsuc n) = suc n

-- math.MaxInt64
abbrev pub max_int : ℕ
max_int = 2 ^ 63 - 1

-- a < b, a <= b, a == b
abbrev pub int_ltb : ℤ → ℤ → Bool
int_ltb a b = ltb (pos_part a + neg_part b) (pos_part b + neg_part a)

abbrev pub int_leb : ℤ → ℤ → Bool
int_leb a b = leb (pos_part a + neg_part b) (pos_part b + neg_part a)

abbrev pub int_eq : ℤ → ℤ → Bool
int_eq a b = (pos_part a + neg_part b) == (pos_part b + neg_part a)

-- a - b as an unbounded integer
abbrev pub sub_ℕ : ℕ → ℕ → ℤ
sub_ℕ a b = if leb b a then pos (a - b) else negsuc (b - a - 1)

-- The 64-bit two's complement reading of an integer: what an arithmetic result is stored as.
abbrev pub of_bits : ℕ → ℤ
of_bits n = if ltb n (2 ^ 63) then pos n else negsuc (2 ^ 64 - n - 1)

abbrev pub to_bits : ℤ → ℕ
to_bits (pos n) = n % 2 ^ 64
to_bits (negsuc n) = 2 ^ 64 - 1 - n % 2 ^ 64

-- n++ on an int
abbrev pub int_inc : ℤ → ℤ
int_inc (pos n) = if n == max_int then negsuc max_int else pos (suc n)
int_inc (negsuc zero) = pos 0
int_inc (negsuc (suc n)) = negsuc n

-- time.Time.Sub: the difference of two instants in nanoseconds, held to the range of a Duration.
abbrev pub time_sub : ℕ → ℕ → ℤ
time_sub a b =
    if leb b a
    then (if leb (a - b) max_int then pos (a - b) else pos max_int)
    else (if leb (b - a) (2 ^ 63) then negsuc (b - a - 1) else negsuc max_int)
