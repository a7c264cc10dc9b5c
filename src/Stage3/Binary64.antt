-- ===== src/Stage3/Binary64.antt =====
-- src/backend/risk/stage3/arithmetic.ts, fromBinary64 and publish: between exact fractions and the numbers
-- of IEEE 754. A finite number is its sign, its encoded exponent and its fraction; what `publish` returns
-- is a sign, an integer and a power of two, which `Number(significand) * 2 ** quantum` is exactly.
use buy_not_buy_com.Common.{
  ℕ, zero, suc, ◌+◌, ◌-◌, ◌*◌, ◌/◌, ◌%◌, ◌^◌, max, Bool, true, false, ◌&&◌, ◌||◌, ltb, leb, ◌==◌,
  if◌then◌else◌,
}
use buy_not_buy_com.Common.Int.{ℤ, pos, negsuc}
use buy_not_buy_com.Stage3.{
  ArithmeticLimits, RationalParts, NumericResult, success, failure, magnitude, is_negative,
  with_sign, normalize,
}
pub mod Nearest
mod Tests

pub record Binary64 : Type 0 where
  pub negative : Bool
  pub encoded_exponent : ℕ
  pub fraction : ℕ

pub significand_of : Binary64 → ℕ
significand_of b = if b.encoded_exponent == 0 then b.fraction else 2 ^ 52 + b.fraction

unfoldable pub from_binary64 : ArithmeticLimits → Binary64 → NumericResult RationalParts
unfolding normalize significand_of
from_binary64 limits b =
    let signed = with_sign b.negative (significand_of b) in
    let exponent = max b.encoded_exponent 1 in
    if leb 1075 exponent
    then normalize limits (with_sign b.negative (significand_of b * 2 ^ (exponent - 1075))) (pos 1)
    else normalize limits signed (pos (2 ^ (1075 - exponent)))

-- `sign`, `significand` and the power of two `2 ^ (quantum - 1074)`.
pub record FiniteNumber : Type 0 where
  pub negative : Bool
  pub significand : ℕ
  pub quantum : ℕ

pub data Published : Type 0 where
  published : FiniteNumber → Published
  underflow overflow : Published

-- `toString(2).length` of a positive number that has at most so many bits.
pub bit_length : ℕ → ℕ → ℕ
bit_length zero n = 0
bit_length (suc bits) n = let rest = bit_length bits (n / 2) in if n == 0 then 0 else rest + 1

-- The division, rounded to the nearest, and to the even one of two that are equally near.
pub round_even : ℕ → ℕ → ℕ
round_even n d =
    let significand = n / d in
    let twice_remainder = 2 * (n % d) in
    if ltb d twice_remainder || (twice_remainder == d && significand % 2 == 1)
    then significand + 1
    else significand

-- The rounding at the quantum `2 ^ (quantum - 1074)`: only one of the two numbers is shifted.
pub publish_at : Bool → ℕ → ℕ → ℕ → Published
unfolding round_even
publish_at negative magnitude denominator quantum =
    let n = magnitude * 2 ^ (1074 - quantum) in
    let d = denominator * 2 ^ (quantum - 1074) in
    let significand = round_even n d in
    if significand == 0
    then underflow
    else if leb (2 ^ 1024) (significand * 2 ^ (quantum - 1074))
    then overflow
    else published (record { negative = negative; significand = significand; quantum = quantum })

-- The exponent of the leading bit of a fraction, plus 4096 so that it is a natural number.
pub exponent_of : ℕ → ℕ → ℕ
unfolding bit_length
exponent_of magnitude denominator =
    let length = bit_length 4096 magnitude + 4096 - bit_length 4096 denominator in
    if leb (denominator * 2 ^ (length - 4096)) (magnitude * 2 ^ (4096 - length))
    then length
    else length - 1

unfoldable pub publish : RationalParts → Published
unfolding exponent_of publish_at
publish q =
    let m = magnitude q.numerator in
    let exponent = exponent_of m q.denominator in
    if m == 0
    then published (record { negative = false; significand = 0; quantum = 1074 })
    else if ltb (1023 + 4096) exponent
    then overflow
    else if ltb exponent (4096 - 1075)
    then underflow
    else publish_at (is_negative q.numerator) m q.denominator
        (max (exponent - 52) (4096 - 1074) - (4096 - 1074))
