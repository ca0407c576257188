-- ===== src/Common/Float.antt =====
-- IEEE 754 double precision, as the 64 bits of a `float64`: comparison and conversion.
use Prim.Native.Nat.{ℕ, zero, suc, ◌+◌, ◌-◌, ◌*◌, ◌/◌, ◌%◌, ◌^◌}
use mathlib.Core.Bool.{Bool, not, ◌&&◌, ◌||◌}
use canarium.Common.Tests.{ltb, ◌==◌, if◌then◌else◌}
use canarium.Common.Int.{ℤ, pos, negsuc, sub_ℕ, leb_ℤ, ltb_ℤ, eqb_ℤ}

-- The exponent and fraction, without the sign.
abbrev pub magnitude : ℕ → ℕ
magnitude b = b % 2 ^ 63

abbrev pub is_nan : ℕ → Bool
is_nan b = ltb (2047 * 2 ^ 52) (magnitude b)

-- Numbers that are not NaN are ordered as sign and magnitude; both zeros have key 0.
unfoldable pub order_key : ℕ → ℤ
order_key b = if ltb (b % 2 ^ 64) (2 ^ 63) then pos (magnitude b) else sub_ℕ 0 (magnitude b)

-- `a <= b`, `a < b`, `a == b`: false where one side is NaN.
unfoldable pub float_le : ℕ → ℕ → Bool
float_le a b = not (is_nan a || is_nan b) && leb_ℤ (order_key a) (order_key b)

unfoldable pub float_lt : ℕ → ℕ → Bool
float_lt a b = not (is_nan a || is_nan b) && ltb_ℤ (order_key a) (order_key b)

unfoldable pub float_eq : ℕ → ℕ → Bool
float_eq a b = not (is_nan a || is_nan b) && eqb_ℤ (order_key a) (order_key b)

-- The position of the leading bit; `fuel` bounds the number's width.
log2 : ℕ → ℕ → ℕ
log2 zero n = 0
log2 (suc fuel) n = let rest = suc (log2 fuel (n / 2)) in if ltb n 2 then 0 else rest

-- The double nearest to a positive integer whose leading bit is bit `k`, ties to even.
round_at : ℕ → ℕ → ℕ
round_at k n =
    let shift = k - 52 in
    let q = n / 2 ^ shift in
    let r = n % 2 ^ shift in
    let half = 2 ^ shift / 2 in
    let up = ltb half r || (r == half && q % 2 == 1) in
    if ltb 52 k
    then (k + 1022) * 2 ^ 52 + q + (if up then 1 else 0)
    else (k + 1022) * 2 ^ 52 + n * 2 ^ (52 - k)

magnitude_of : ℕ → ℕ
unfolding log2 round_at
magnitude_of n = if n == 0 then 0 else round_at (log2 64 n) n

-- `float64(n)` for an integer of at most 64 bits.
unfoldable pub of_int : ℤ → ℕ
unfolding magnitude_of
of_int (pos n) = magnitude_of n
of_int (negsuc n) = 2 ^ 63 + magnitude_of (suc n)

-- `float64(x)` for the 32 bits of a `float32`.
unfoldable pub of_float32 : ℕ → ℕ
unfolding log2
of_float32 b =
    let sign = b / 2 ^ 31 * 2 ^ 63 in
    let exponent = b % 2 ^ 31 / 2 ^ 23 in
    let fraction = b % 2 ^ 23 in
    let k = log2 23 fraction in
    let subnormal = if fraction == 0 then 0 else (k + 873) * 2 ^ 52 + fraction * 2 ^ (52 - k) in
    sign
    + (if exponent == 0
        then subnormal
        else if exponent == 255
        then 2047 * 2 ^ 52 + fraction * 2 ^ 29
        else (exponent + 896) * 2 ^ 52 + fraction * 2 ^ 29)
