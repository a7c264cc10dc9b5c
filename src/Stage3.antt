-- ===== src/Stage3.antt =====
-- src/backend/risk/stage3/arithmetic.ts: exact fractions of integers. A handle of the source is its parts
-- here, so that an untrusted handle and an argument of a wrong type have no counterpart. A stored
-- denominator is positive, hence a natural number; the arguments of `normalize` are integers.
use buy_not_buy_com.Common.{
  ℕ, zero, suc, ◌+◌, ◌-◌, ◌*◌, ◌/◌, ◌%◌, ◌^◌, Bool, true, false, ◌&&◌, Option, some, none, ltb,
  ◌==◌, if◌then◌else◌,
}
use buy_not_buy_com.Common.Int.{ℤ, pos, negsuc, pos_part, neg_part, ltb_ℤ, sub_ℕ, ◌+ℤ◌, ◌-ℤ◌, ◌*ℤ◌}
pub mod Euclid
pub mod Binary64
pub mod Exact
pub mod Margin
mod Tests

-- The exclusive bound on a magnitude and the number of steps of one Euclidean loop.
pub record ArithmeticLimits : Type 0 where
  pub bound : ℕ
  pub gcd_steps : ℕ

pub arithmetic_limits : ArithmeticLimits
arithmetic_limits = record { bound = 2 ^ 4096; gcd_steps = 20000 }

pub data NumericError : Type 0 where
  resource_limit division_by_zero : NumericError

pub data NumericResult (A : Type 0) : Type 0 where
  success : A → NumericResult A
  failure : NumericError → NumericResult A

pub record RationalParts : Type 0 where
  pub numerator : ℤ
  pub denominator : ℕ

-- `abs`, as a natural number.
abbrev pub magnitude : ℤ → ℕ
magnitude a = pos_part a + neg_part a

abbrev pub is_negative : ℤ → Bool
is_negative (pos n) = false
is_negative (negsuc n) = true

abbrev pub differ : Bool → Bool → Bool
differ true true = false
differ false false = false
differ _ _ = true

abbrev pub with_sign : Bool → ℕ → ℤ
with_sign true m = sub_ℕ 0 m
with_sign false m = pos m

-- The loop, with the number of steps left; `none` is the resource limit.
pub euclid : ℕ → ℕ → ℕ → Option ℕ
euclid zero a b = if b == 0 then some a else none
euclid (suc left) a b = let rest = euclid left b (a % b) in if b == 0 then some a else rest

-- The checks behind the loop, with the divisor that it found.
pub reduce : ℕ → Bool → ℕ → ℕ → Option ℕ → NumericResult RationalParts
reduce bound negative n d none = failure resource_limit
reduce bound negative n d (some a) =
    if ltb (n / a) bound && ltb (d / a) bound
    then success (record { numerator = with_sign negative (n / a); denominator = d / a })
    else failure resource_limit

pub normalize : ArithmeticLimits → ℤ → ℤ → NumericResult RationalParts
unfolding euclid reduce
normalize limits numerator denominator =
    let n = magnitude numerator in
    let d = magnitude denominator in
    if d == 0
    then failure division_by_zero
    else reduce limits.bound (differ (is_negative numerator) (is_negative denominator)) n d
        (euclid limits.gcd_steps n d)

pub rational : ArithmeticLimits → ℤ → ℤ → NumericResult RationalParts
unfolding normalize
rational limits numerator denominator =
    if ltb (magnitude numerator) limits.bound && ltb (magnitude denominator) limits.bound
    then normalize limits numerator denominator
    else failure resource_limit

pub data Operation : Type 0 where
  add subtract multiply divide : Operation

-- The numerator and the denominator that `calculate` passes to `normalize`.
abbrev pub fraction_of : Operation → RationalParts → RationalParts → ℤ × ℤ
fraction_of add a b = (
  a.numerator *ℤ pos b.denominator +ℤ b.numerator *ℤ pos a.denominator,
  pos a.denominator *ℤ pos b.denominator,
)
fraction_of subtract a b = (
  a.numerator *ℤ pos b.denominator -ℤ b.numerator *ℤ pos a.denominator,
  pos a.denominator *ℤ pos b.denominator,
)
fraction_of multiply a b = (a.numerator *ℤ b.numerator, pos a.denominator *ℤ pos b.denominator)
fraction_of divide a b = (a.numerator *ℤ pos b.denominator, pos a.denominator *ℤ b.numerator)

pub calculate :
    ArithmeticLimits → RationalParts → RationalParts → Operation → NumericResult RationalParts
unfolding normalize
calculate limits a b operation = let f = fraction_of operation a b in normalize limits f.0 f.1

pub data Ordered : Type 0 where
  less equal greater : Ordered

pub compare_rationals : RationalParts → RationalParts → Ordered
compare_rationals a b =
    let l = a.numerator *ℤ pos b.denominator in
    let r = b.numerator *ℤ pos a.denominator in
    if ltb_ℤ l r then less else if ltb_ℤ r l then greater else equal

pub data ExactComparison : Type 0 where
  lt lte eq gt gte : ExactComparison

-- The test of the comparison's result against 0.
abbrev pub relates : Ordered → ExactComparison → Bool
relates less lt = true
relates less lte = true
relates equal lte = true
relates equal eq = true
relates equal gte = true
relates greater gt = true
relates greater gte = true
relates _ _ = false

pub test_relation : RationalParts → RationalParts → ExactComparison → Bool
unfolding compare_rationals
test_relation a b relation = relates (compare_rationals a b) relation
