-- ===== src/Stage3/Binary64/Tests.antt =====
-- Concrete numbers, and the theorems at them.
use buy_not_buy_com.Common.{◌^◌, ◌≡◌, refl, false}
use buy_not_buy_com.Common.Int.{pos}
use buy_not_buy_com.Stage3.{RationalParts, success, arithmetic_limits}
use buy_not_buy_com.Stage3.Binary64.{Binary64, FiniteNumber, published, publish, from_binary64}

-- 0.1, and 1/3.
abbrev tenth : Binary64
tenth = record { negative = false; encoded_exponent = 1019; fraction = 2702159776422298 }

abbrev third : RationalParts
third = record { numerator = pos 1; denominator = 3 }

abbrev published_third : FiniteNumber
published_third = record { negative = false; significand = 6004799503160661; quantum = 1020 }

third_published : publish third ≡ published published_third
unfolding publish
third_published = refl

tenth_decoded :
    from_binary64 arithmetic_limits tenth
    ≡ success (record { numerator = pos 3602879701896397; denominator = 2 ^ 55 })
unfolding from_binary64 arithmetic_limits
tenth_decoded = refl
