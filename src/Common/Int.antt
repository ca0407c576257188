-- ===== src/Common/Int.antt =====
-- Signed integers, and Go's `int64` (time.Duration) with its wrap-around written out.
use Prim.Native.Nat.{ℕ, suc, ◌+◌, ◌-◌, ◌*◌, ◌%◌, ◌^◌, ◌≤◌, ◌<◌}
use mathlib.Core.Path.{◌≡◌}
use mathlib.Core.Bool.{Bool}
use native.Mathlib.Omega.{arith}
use canarium.Common.Tests.{ltb, leb, ◌==◌, if◌then◌else◌}

-- `negsuc n` is -(n + 1).
pub data ℤ : Type 0 where
  pos : ℕ → ℤ
  negsuc : ℕ → ℤ

abbrev pub pos_part : ℤ → ℕ
pos_part (pos n) = n
pos_part (negsuc _) = 0

abbrev pub neg_part : ℤ → ℕ
neg_part (pos _) = 0
neg_part (negsuc n) = suc n

abbrev pub sub_ℕ : ℕ → ℕ → ℤ
sub_ℕ a b = if leb b a then pos (a - b) else negsuc (b - a - 1)

infix 50 ◌≤ℤ◌ ◌<ℤ◌
abbrev pub ◌≤ℤ◌ : ℤ → ℤ → Type 0
a ≤ℤ b = pos_part a + neg_part b ≤ pos_part b + neg_part a

abbrev pub ◌<ℤ◌ : ℤ → ℤ → Type 0
a <ℤ b = pos_part a + neg_part b < pos_part b + neg_part a

abbrev pub ltb_ℤ : ℤ → ℤ → Bool
ltb_ℤ a b = ltb (pos_part a + neg_part b) (pos_part b + neg_part a)

abbrev pub leb_ℤ : ℤ → ℤ → Bool
leb_ℤ a b = leb (pos_part a + neg_part b) (pos_part b + neg_part a)

abbrev pub eqb_ℤ : ℤ → ℤ → Bool
eqb_ℤ a b = (pos_part a + neg_part b) == (pos_part b + neg_part a)

-- The value of the low 64 bits, read as a signed number.
abbrev pub from_bits : ℕ → ℤ
from_bits b = if ltb b (2 ^ 63) then pos b else negsuc (2 ^ 64 - 1 - b)

abbrev pub wrap : ℤ → ℤ
wrap (pos n) = from_bits (n % 2 ^ 64)
wrap (negsuc n) = from_bits (2 ^ 64 - 1 - n % 2 ^ 64)

-- `a + b` on int64.
unfoldable pub add64 : ℤ → ℤ → ℤ
add64 a b = wrap (sub_ℕ (pos_part a + pos_part b) (neg_part a + neg_part b))

-- `a - b` on int64.
unfoldable pub sub64 : ℤ → ℤ → ℤ
sub64 a b = wrap (sub_ℕ (pos_part a + neg_part b) (neg_part a + pos_part b))

-- `2 * a` on int64.
unfoldable pub double64 : ℤ → ℤ
double64 a = wrap (sub_ℕ (2 * pos_part a) (2 * neg_part a))

-- Instants are nanoseconds since Go's zero time, so that 0 is `time.Time{}`. `t.Sub(u)` saturates.
unfoldable pub time_sub : ℕ → ℕ → ℤ
time_sub t u =
    if leb u t
    then (if ltb (t - u) (2 ^ 63) then pos (t - u) else pos (2 ^ 63 - 1))
    else (if leb (u - t) (2 ^ 63) then negsuc (u - t - 1) else negsuc (2 ^ 63 - 1))

-- `t.Add(d)`; an instant before Go's zero time is not represented.
unfoldable pub time_add : ℕ → ℤ → ℕ
time_add t (pos d) = t + d
time_add t (negsuc d) = t - suc d

abbrev pub is_zero_time : ℕ → Bool
is_zero_time t = t == 0

-- An integer that int64 holds.
abbrev pub Fits : ℤ → Type 0
Fits a = (pos_part a < 2 ^ 63) × (neg_part a ≤ 2 ^ 63)

-- A sum of two durations that does not overflow is exact.
pub add64_pos : (a b : ℕ) → a + b < 2 ^ 63 → add64 (pos a) (pos b) ≡ pos (a + b)
unfolding add64
add64_pos a b h = ground arith

pub time_sub_pos : (t u : ℕ) → u ≤ t → t - u < 2 ^ 63 → time_sub t u ≡ pos (t - u)
unfolding time_sub
time_sub_pos t u h k = ground arith

pub add64-Fits : (a b : ℤ) → Fits (add64 a b)
unfolding add64
add64-Fits a b = ground arith

pub time_sub-Fits : (t u : ℕ) → Fits (time_sub t u)
unfolding time_sub
time_sub-Fits t u = ground arith
