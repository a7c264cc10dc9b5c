-- ===== src/Stage3/Binary64/Nearest.antt =====
-- What the rounding of `publish` returns.
use native.Mathlib.Nat.{mod-add-div', mod-lt, mul-pos, one-le-pow, pow-le-pow_right}
use mathlib.Core.Path.{subst, sym}
use buy_not_buy_com.Common.{
  ℕ, ◌+◌, ◌-◌, ◌*◌, ◌/◌, ◌%◌, ◌^◌, max, ◌≤◌, ◌<◌, ◌≡◌, ◌⊎◌, inl, inr, refl, ap, Bool-cases, leb→le,
  ◌∙◌, Bool, true, false, ltb, leb, ◌==◌, if◌then◌else◌, arith,
}
use buy_not_buy_com.Common.Int.{pos}
use buy_not_buy_com.Stage3.{
  RationalParts, magnitude, is_negative, arithmetic_limits, with_sign, normalize,
}
use buy_not_buy_com.Stage3.Exact.{IsExact, normalize-IsExact}
use buy_not_buy_com.Stage3.Binary64.{
  FiniteNumber, Published, published, underflow, overflow, round_even, publish_at, publish,
  exponent_of, Binary64, from_binary64, significand_of,
}

-- `s` is a nearest integer to n / d, and the even one if another is as near.
abbrev pub IsNearest : ℕ → ℕ → ℕ → Type 0
IsNearest n d s =
    (2 * n ≤ 2 * (s * d) + d)
    × (2 * (s * d) ≤ 2 * n + d)
    × (((2 * n < 2 * (s * d) + d) × (2 * (s * d) < 2 * n + d)) ⊎ (s % 2 ≡ 0))

round_down : (n d q r : ℕ) → r + q * d ≡ n → 2 * r ≤ d → (2 * r < d) ⊎ (q % 2 ≡ 0) → IsNearest n d q
round_down n d q r h k (inl below) = (omega arith, omega arith, inl (omega arith, omega arith))
round_down n d q r h k (inr even) = (omega arith, omega arith, inr even)

round_up :
    (n d q r : ℕ)
    → r + q * d ≡ n
    → r < d
    → d ≤ 2 * r
    → (d < 2 * r) ⊎ (q % 2 ≡ 1)
    → IsNearest n d (q + 1)
round_up n d q r h k up (inl above) = (omega arith, omega arith, inl (omega arith, omega arith))
round_up n d q r h k up (inr odd) = (omega arith, omega arith, inr (omega arith))

-- Which of the two the code takes.
round_cases :
    (n d : ℕ)
    → let q = n / d in
      let r = n % d in
      ((2 * r ≤ d) × ((2 * r < d) ⊎ (q % 2 ≡ 0)) × (round_even n d ≡ q))
      ⊎ ((d ≤ 2 * r) × ((d < 2 * r) ⊎ (q % 2 ≡ 1)) × (round_even n d ≡ q + 1))
unfolding round_even
round_cases n d = ground arith

round_even-IsNearest : (n d : ℕ) → 0 < d → IsNearest n d (round_even n d)
round_even-IsNearest n d h = elim (round_cases n d) [
  | inl (small, why, e) ↦
      subst (IsNearest n d) (sym e) (round_down n d (n / d) (n % d) (mod-add-div' n d) small why)
  | inr (large, why, e) ↦
      subst (IsNearest n d) (sym e)
        (round_up n d (n / d) (n % d) (mod-add-div' n d) (mod-lt n h) large why)
]

-- What a published number is of m / d: the rounding of it at the number's own quantum, and not zero.
abbrev pub IsRounded : Bool → ℕ → ℕ → FiniteNumber → Type 0
IsRounded negative m d x =
    (x.negative ≡ negative)
    × (0 < x.significand)
    × (x.significand * 2 ^ (x.quantum - 1074) < 2 ^ 1024)
    × IsNearest (m * 2 ^ (1074 - x.quantum)) (d * 2 ^ (x.quantum - 1074)) x.significand

abbrev is_published : Published → Bool
is_published (published x) = true
is_published _ = false

abbrev number_of : Published → FiniteNumber → FiniteNumber
number_of (published x) given = x
number_of _ given = given

abbrev candidate : Bool → ℕ → ℕ → ℕ → FiniteNumber
candidate negative m d quantum = record {
  negative = negative;
  significand = round_even (m * 2 ^ (1074 - quantum)) (d * 2 ^ (quantum - 1074));
  quantum = quantum;
}

publish_at_cases :
    (negative : Bool) (m d quantum : ℕ)
    → let c = candidate negative m d quantum in
      (is_published (publish_at negative m d quantum) ≡ false)
      ⊎ ((0 < c.significand)
          × (c.significand * 2 ^ (quantum - 1074) < 2 ^ 1024)
          × (publish_at negative m d quantum ≡ published c))
unfolding publish_at
publish_at_cases negative m d quantum = ground arith

publish_at-IsRounded :
    (negative : Bool) (m d quantum : ℕ) (x : FiniteNumber)
    → 0 < d * 2 ^ (quantum - 1074)
    → publish_at negative m d quantum ≡ published x
    → IsRounded negative m d x
publish_at-IsRounded negative m d quantum x h e = elim (publish_at_cases negative m d quantum) [
  | inl none_given ↦ cc
  | inr (some_bits, in_range, given) ↦
      subst (IsRounded negative m d) (ap (λ p. number_of p x) (sym given ∙ e)) (
        refl,
        some_bits,
        in_range,
        round_even-IsNearest (m * 2 ^ (1074 - quantum)) (d * 2 ^ (quantum - 1074)) h,
      )
]

-- The quantum that `publish` rounds at.
abbrev quantum_of : ℕ → ℕ → ℕ
quantum_of m d = max (exponent_of m d - 52) (4096 - 1074) - (4096 - 1074)

positive_not_zero : (m : ℕ) → 0 < m → (m == 0) ≡ false
positive_not_zero m h = ground arith

last_case :
    (a b c : Bool) (x : FiniteNumber) (p : Published)
    → a ≡ false
    → let r = if a then published x else if b then overflow else if c then underflow else p in
      (is_published r ≡ false) ⊎ (r ≡ p)
last_case true b c x p h = cc
last_case false true c x p h = inl refl
last_case false false true x p h = inl refl
last_case false false false x p h = inr refl

publish_cases :
    (q : RationalParts)
    → 0 < magnitude q.numerator
    → let m = magnitude q.numerator in
      (is_published (publish q) ≡ false)
      ⊎ (publish q
          ≡ publish_at (is_negative q.numerator) m q.denominator (quantum_of m q.denominator))
unfolding publish
publish_cases q h =
    let m = magnitude q.numerator in
    let exponent = exponent_of m q.denominator in
    last_case (m == 0) (ltb (1023 + 4096) exponent) (ltb exponent (4096 - 1075)) _ _
      (positive_not_zero m h)

positive_shift : (d k : ℕ) → 0 < d → 0 < d * 2 ^ k
positive_shift d k h = mul-pos h (one-le-pow k 2 (omega arith))

-- A number that `publish` returns for a fraction other than zero is the fraction rounded to a nearest
-- multiple of the number's quantum, and to the even one of two that are as near; it has the sign of the
-- fraction, is not zero and is in range.
pub publish-IsRounded :
    (q : RationalParts) (x : FiniteNumber)
    → 0 < magnitude q.numerator
    → 0 < q.denominator
    → publish q ≡ published x
    → IsRounded (is_negative q.numerator) (magnitude q.numerator) q.denominator x
publish-IsRounded q x nonzero h e = elim (publish_cases q nonzero) [
  | inl none_given ↦ cc
  | inr same ↦
      let m = magnitude q.numerator in
      let k = quantum_of m q.denominator in
      publish_at-IsRounded (is_negative q.numerator) m q.denominator k x
        (positive_shift q.denominator (k - 1074) h) (sym same ∙ e)
]

small_power : (k : ℕ) → k ≤ 1075 → magnitude (pos (2 ^ k)) < 2 ^ 8192
small_power k h = omega (arith, pow-le-pow_right {n = 2} (omega arith) {i = k} {j = 1075} h)

le→leb : (a b : ℕ) → a ≤ b → leb a b ≡ true
le→leb a b h = ground arith

lt→leb : (a b : ℕ) → b < a → leb a b ≡ false
lt→leb a b h = ground arith

from_binary64-shifted :
    (b : Binary64)
    → 1075 ≤ max b.encoded_exponent 1
    → from_binary64 arithmetic_limits b
      ≡ normalize arithmetic_limits
          (with_sign b.negative (significand_of b * 2 ^ (max b.encoded_exponent 1 - 1075)))
          (pos 1)
unfolding from_binary64
from_binary64-shifted b h = rw (le→leb 1075 (max b.encoded_exponent 1) h) refl

from_binary64-divided :
    (b : Binary64)
    → max b.encoded_exponent 1 < 1075
    → from_binary64 arithmetic_limits b
      ≡ normalize arithmetic_limits
          (with_sign b.negative (significand_of b))
          (pos (2 ^ (1075 - max b.encoded_exponent 1)))
unfolding from_binary64
from_binary64-divided b h = rw (lt→leb 1075 (max b.encoded_exponent 1) h) refl

-- The fraction of a finite number of IEEE 754 is the number itself: its significand at its exponent.
pub from_binary64-IsExact :
    (b : Binary64)
    → b.encoded_exponent < 2047
    → let e = max b.encoded_exponent 1 in
      IsExact
        (with_sign b.negative (significand_of b * 2 ^ (e - 1075)))
        (pos (2 ^ (1075 - e)))
        (from_binary64 arithmetic_limits b)
from_binary64-IsExact b finite =
    let e = max b.encoded_exponent 1 in
    let s = significand_of b in
    elim (Bool-cases (leb 1075 e)) [
      | inl h ↦
          let large : 1075 ≤ e = leb→le 1075 e h in
          let over : 1075 - e ≡ 0 = omega arith in
          subst
            (λ k.
              IsExact (with_sign b.negative (s * 2 ^ (e - 1075))) (pos (2 ^ k))
                (from_binary64 arithmetic_limits b))
            (sym over)
            (subst (IsExact (with_sign b.negative (s * 2 ^ (e - 1075))) (pos 1))
              (sym (from_binary64-shifted b large))
              (normalize-IsExact (with_sign b.negative (s * 2 ^ (e - 1075))) (pos 1)
                (small_power 0 (omega arith))))
      | inr h ↦
          let small : e < 1075 = grind (arith, h) in
          let under : e - 1075 ≡ 0 = omega arith in
          let same : s ≡ s * 2 ^ (e - 1075) = omega (arith, ap (λ k. s * 2 ^ k) under) in
          subst
            (λ m.
              IsExact (with_sign b.negative m) (pos (2 ^ (1075 - e)))
                (from_binary64 arithmetic_limits b))
            same
            (subst (IsExact (with_sign b.negative s) (pos (2 ^ (1075 - e))))
              (sym (from_binary64-divided b small))
              (normalize-IsExact (with_sign b.negative s) (pos (2 ^ (1075 - e)))
                (small_power (1075 - e) (omega arith))))
    ]
