-- ===== src/Stage3/Tests.antt =====
-- Fractions of small integers.
use buy_not_buy_com.Common.{◌≡◌, refl, true, arith}
use buy_not_buy_com.Common.Int.{pos, negsuc, ◌*ℤ◌, ◌+ℤ◌}
use buy_not_buy_com.Stage3.{
  arithmetic_limits, RationalParts, success, failure, division_by_zero, add, divide, normalize,
  calculate, compare_rationals, less, test_relation, gte,
}
use buy_not_buy_com.Stage3.Exact.{IsStored, IsExact, calculate-IsExact}

abbrev half : RationalParts
half = record { numerator = pos 1; denominator = 2 }

abbrev minus_sixth : RationalParts
minus_sixth = record { numerator = negsuc 0; denominator = 6 }

abbrev third : RationalParts
third = record { numerator = pos 1; denominator = 3 }

reduced :
    normalize arithmetic_limits (pos 10) (negsuc 3)
    ≡ success (record { numerator = negsuc 4; denominator = 2 })
unfolding normalize arithmetic_limits
reduced = refl

added : calculate arithmetic_limits half minus_sixth add ≡ success third
unfolding calculate arithmetic_limits ◌*ℤ◌ ◌+ℤ◌
added = refl

undefined :
    calculate arithmetic_limits half (record { numerator = pos 0; denominator = 1 }) divide
    ≡ failure division_by_zero
unfolding calculate arithmetic_limits ◌*ℤ◌ ◌+ℤ◌
undefined = refl

ordered : compare_rationals minus_sixth third ≡ less
unfolding compare_rationals ◌*ℤ◌
ordered = refl

half-IsStored : IsStored half
unfolding arithmetic_limits
half-IsStored = record {
  small_numerator = ground arith;
  small_denominator = ground arith;
  positive = ground arith;
}

minus_sixth-IsStored : IsStored minus_sixth
unfolding arithmetic_limits
minus_sixth-IsStored = record {
  small_numerator = ground arith;
  small_denominator = ground arith;
  positive = ground arith;
}

calculate-IsExact_example :
    IsExact (pos 4) (pos 12) (calculate arithmetic_limits half minus_sixth add)
unfolding ◌*ℤ◌ ◌+ℤ◌
calculate-IsExact_example =
    calculate-IsExact half minus_sixth add half-IsStored minus_sixth-IsStored

at_least : test_relation third minus_sixth gte ≡ true
unfolding test_relation ◌*ℤ◌
at_least = refl
