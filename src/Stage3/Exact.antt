-- ===== src/Stage3/Exact.antt =====
-- What the operations on fractions return.
use native.Mathlib.Nat.{
  one-dvd, div-mul_cancel, mul-dvd-mul_right, dvd_of_mul-dvd-mul_right, pos_of_dvd_of_pos,
  eq-zero-or-pos, mul-lt-mul_of_pos_right, mul-le-mul_left,
}
use mathlib.Core.Path.{subst}
use buy_not_buy_com.Common.{
  ℕ, zero, suc, ◌+◌, ◌*◌, ◌/◌, ◌^◌, ◌≤◌, ◌<◌, ◌∣◌, ◌≡◌, ◌≢◌, ◌⊎◌, inl, inr, refl, sym, ap, ◌∙◌,
  Bool, Option, some, none, arith,
}
use buy_not_buy_com.Common.Int.{ℤ, pos, negsuc, ◌*ℤ◌, ◌+ℤ◌, ◌-ℤ◌}
use buy_not_buy_com.Stage3.{
  arithmetic_limits, RationalParts, NumericResult, success, failure, resource_limit,
  division_by_zero, magnitude, is_negative, differ, with_sign, euclid, reduce, normalize, Operation,
  add, subtract, multiply, divide, fraction_of, calculate,
}
use buy_not_buy_com.Stage3.Euclid.{IsGcd, euclid_enough, euclid-IsGcd}

magnitude-with_sign : (s : Bool) (m : ℕ) → magnitude (with_sign s m) ≡ m
magnitude-with_sign s m = ground arith

times_swap : (x y g : ℕ) → x * (y * g) ≡ x * g * y
times_swap x y g = omega arith

nat_cross : (n d x y g : ℕ) → n ≡ x * g → d ≡ y * g → x * d ≡ n * y
nat_cross n d x y g h k = ap (◌*◌ x) k ∙ times_swap x y g ∙ ap (λ m. m * y) (sym h)

-- `with_sign` is the quotient's sign, and the products of the two fractions agree.
cross :
    (n d : ℤ) (x y g : ℕ)
    → magnitude n ≡ x * g
    → magnitude d ≡ y * g
    → with_sign (differ (is_negative n) (is_negative d)) x *ℤ d ≡ n *ℤ pos y
unfolding ◌*ℤ◌
cross (pos n) (pos d) x y g h k =
    ground (arith, nat_cross n d x y g (ground (arith, h)) (ground (arith, k)))
cross (pos n) (negsuc d) x y g h k =
    ground (arith, nat_cross n (suc d) x y g (ground (arith, h)) (ground (arith, k)))
cross (negsuc n) (pos d) x y g h k =
    ground (arith, nat_cross (suc n) d x y g (ground (arith, h)) (ground (arith, k)))
cross (negsuc n) (negsuc d) x y g h k =
    ground (arith, nat_cross (suc n) (suc d) x y g (ground (arith, h)) (ground (arith, k)))

one_mul : (g : ℕ) → g ≡ 1 * g
one_mul g = omega arith

lowest : (n d g : ℕ) → 0 < d → IsGcd g n d → IsGcd 1 (n / g) (d / g)
lowest n d g h i =
    let g_pos = pos_of_dvd_of_pos i.right_divides h in
    record {
      left_divides = one-dvd (n / g);
      right_divides = one-dvd (d / g);
      is_greatest = λ c j k. dvd_of_mul-dvd-mul_right {k = g} c g_pos (
          subst (λ x. c * g ∣ x) (one_mul g)
            (i.is_greatest (c * g)
              (subst (λ x. c * g ∣ x) (div-mul_cancel g i.left_divides) (mul-dvd-mul_right c j g))
              (subst (λ x. c * g ∣ x) (div-mul_cancel g i.right_divides)
                (mul-dvd-mul_right c k g))));
    }

bound_square : arithmetic_limits.bound * arithmetic_limits.bound ≡ 2 ^ 8192
unfolding arithmetic_limits
bound_square = refl

-- Within the bound, over a positive denominator.
pub record IsStored (q : RationalParts) : Type 0 where
  pub small_numerator : magnitude q.numerator < arithmetic_limits.bound
  pub small_denominator : q.denominator < arithmetic_limits.bound
  pub positive : 0 < q.denominator

-- What a result must be for the fraction of `n` and `d`: the same fraction, in lowest terms and within
-- the bound; or an error, which says that the denominator is 0 or that the lowest terms exceed the bound.
abbrev pub IsExact : ℤ → ℤ → NumericResult RationalParts → Type 0
IsExact n d (success q) =
    (0 < magnitude d)
    × (q.numerator *ℤ d ≡ n *ℤ pos q.denominator)
    × IsGcd 1 (magnitude q.numerator) q.denominator
    × IsStored q
IsExact n d (failure division_by_zero) = magnitude d ≡ 0
IsExact n d (failure resource_limit) =
    (0 < magnitude d)
    × (g : ℕ) × IsGcd g (magnitude n) (magnitude d)
    × ((arithmetic_limits.bound ≤ magnitude n / g) ⊎ (arithmetic_limits.bound ≤ magnitude d / g))

abbrev sign_of : ℤ → ℤ → Bool
sign_of n d = differ (is_negative n) (is_negative d)

reduce-fits :
    (bound n d g : ℕ) (s : Bool)
    → n / g < bound
    → d / g < bound
    → reduce bound s n d (some g)
      ≡ success (record { numerator = with_sign s (n / g); denominator = d / g })
unfolding reduce
reduce-fits bound n d g s h k = ground arith

reduce-exceeds :
    (bound n d g : ℕ) (s : Bool)
    → (bound ≤ n / g) ⊎ (bound ≤ d / g)
    → reduce bound s n d (some g) ≡ failure resource_limit
unfolding reduce
reduce-exceeds bound n d g s h = ground (arith, h)

fits_or_exceeds : (b x y : ℕ) → ((x < b) × (y < b)) ⊎ ((b ≤ x) ⊎ (b ≤ y))
fits_or_exceeds b x y = ground arith

quotient_positive : (d g q : ℕ) → 0 < d → q * g ≡ d → 0 < q
quotient_positive d g zero h k = omega (arith, h, k)
quotient_positive d g (suc q) h k = omega arith

reduce-IsExact :
    (n d : ℤ) (g : ℕ)
    → 0 < magnitude d
    → IsGcd g (magnitude n) (magnitude d)
    → IsExact n d
        (reduce arithmetic_limits.bound (sign_of n d) (magnitude n) (magnitude d) (some g))
reduce-IsExact n d g h i =
    let b = arithmetic_limits.bound in
    let x = magnitude n / g in
    let y = magnitude d / g in
    let x_back = div-mul_cancel g i.left_divides in
    let y_back = div-mul_cancel g i.right_divides in
    let size = sym (magnitude-with_sign (sign_of n d) x) in
    elim (fits_or_exceeds b x y) [
      | inl (j, k) ↦
          subst (IsExact n d) (sym (reduce-fits b (magnitude n) (magnitude d) g (sign_of n d) j k))
            (
              h,
              cross n d x y g (sym x_back) (sym y_back),
              subst (λ m. IsGcd 1 m y) size (lowest (magnitude n) (magnitude d) g h i),
              record {
                small_numerator = subst (λ m. m < b) size j;
                small_denominator = k;
                positive = quotient_positive (magnitude d) g y h y_back;
              },
            )
      | inr e ↦
          subst (IsExact n d) (sym (reduce-exceeds b (magnitude n) (magnitude d) g (sign_of n d) e))
            (h, g, i, e)
    ]

-- The loop has steps enough for every denominator below the square of the bound.
steps_enough : 8192 + 8192 ≤ arithmetic_limits.gcd_steps
unfolding arithmetic_limits
steps_enough = omega arith

found : (o : Option ℕ) → o ≢ none → (g : ℕ) × (o ≡ some g)
found none h = absurd (h refl)
found (some g) h = (g, refl)

found_of : (n d : ℕ) → d < 2 ^ 8192 → (g : ℕ) × (euclid arithmetic_limits.gcd_steps n d ≡ some g)
found_of n d h =
    found (euclid arithmetic_limits.gcd_steps n d)
      (euclid_enough 8192 arithmetic_limits.gcd_steps n d h steps_enough)

normalize-zero :
    (n d : ℤ) → magnitude d ≡ 0 → normalize arithmetic_limits n d ≡ failure division_by_zero
unfolding normalize
normalize-zero n d h = ground (arith, h)

normalize-reduce :
    (n d : ℤ) (o : Option ℕ)
    → 0 < magnitude d
    → euclid arithmetic_limits.gcd_steps (magnitude n) (magnitude d) ≡ o
    → normalize arithmetic_limits n d
      ≡ reduce arithmetic_limits.bound (sign_of n d) (magnitude n) (magnitude d) o
unfolding normalize
normalize-reduce n d o h k = ground (arith, h, k)

pub normalize-IsExact :
    (n d : ℤ) → magnitude d < 2 ^ 8192 → IsExact n d (normalize arithmetic_limits n d)
normalize-IsExact n d h = elim (eq-zero-or-pos (magnitude d)) [
  | inl z ↦ subst (IsExact n d) (sym (normalize-zero n d z)) z
  | inr i ↦
      let (g, e) = found_of (magnitude n) (magnitude d) h in
      subst (IsExact n d) (sym (normalize-reduce n d (some g) i e)) (
        reduce-IsExact n d g i
          (euclid-IsGcd arithmetic_limits.gcd_steps (magnitude n) (magnitude d) g e))
]

add_zero : (n : ℕ) → n ≡ n + 0
add_zero n = omega arith

lt_le : (x y : ℕ) → x < y → x ≤ y
lt_le x y h = omega arith

above_positive : (x y : ℕ) → x < y → 0 < y
above_positive x y h = omega arith

small_product : (x y b : ℕ) → x < b → y < b → x * y < b * b
small_product x y b h k =
    omega (arith, mul-le-mul_left x (lt_le y b k), mul-lt-mul_of_pos_right h (above_positive x b h))

magnitude-times : (x : ℕ) (c : ℤ) → magnitude (pos x *ℤ c) ≡ x * magnitude c
unfolding ◌*ℤ◌
magnitude-times x (pos y) = ground arith
magnitude-times x (negsuc y) = ground arith

small_times :
    (x : ℕ) (c : ℤ)
    → x < arithmetic_limits.bound
    → magnitude c < arithmetic_limits.bound
    → magnitude (pos x *ℤ c) < 2 ^ 8192
small_times x c h k =
    subst (λ m. m < 2 ^ 8192) (sym (magnitude-times x c))
      (subst (λ m. x * magnitude c < m) bound_square
        (small_product x (magnitude c) arithmetic_limits.bound h k))

denominators_small :
    (a b : RationalParts)
    → IsStored a
    → IsStored b
    → magnitude (pos a.denominator *ℤ pos b.denominator) < 2 ^ 8192
denominators_small a b h k =
    small_times a.denominator (pos b.denominator) h.small_denominator
      (subst (λ m. m < arithmetic_limits.bound) (add_zero b.denominator) k.small_denominator)

-- The denominator that `calculate` passes on is below the square of the bound.
fraction_of-small :
    (op : Operation) (a b : RationalParts)
    → IsStored a
    → IsStored b
    → magnitude (fraction_of op a b).1 < 2 ^ 8192
fraction_of-small divide a b h k =
    small_times a.denominator b.numerator h.small_denominator k.small_numerator
fraction_of-small add a b h k = denominators_small a b h k
fraction_of-small subtract a b h k = denominators_small a b h k
fraction_of-small multiply a b h k = denominators_small a b h k

pub calculate-fraction_of :
    (a b : RationalParts) (op : Operation)
    → IsStored a
    → IsStored b
    → IsExact (fraction_of op a b).0 (fraction_of op a b).1 (calculate arithmetic_limits a b op)
unfolding calculate
calculate-fraction_of a b op h k =
    normalize-IsExact (fraction_of op a b).0 (fraction_of op a b).1 (fraction_of-small op a b h k)

-- The sum, difference, product and quotient of p / q and r / s, not in lowest terms.
abbrev pub value_of : Operation → ℤ → ℕ → ℤ → ℕ → ℤ × ℤ
value_of add p q r s = (p *ℤ pos s +ℤ r *ℤ pos q, pos q *ℤ pos s)
value_of subtract p q r s = (p *ℤ pos s -ℤ r *ℤ pos q, pos q *ℤ pos s)
value_of multiply p q r s = (p *ℤ r, pos q *ℤ pos s)
value_of divide p q r s = (p *ℤ pos s, pos q *ℤ r)

-- Every operation on stored fractions is exact: it returns the sum, difference, product or quotient in
-- lowest terms and within the bound, or says truly that the denominator is 0 or that the lowest terms
-- exceed the bound. In particular the guard on the steps of the Euclidean loop never fires.
pub calculate-IsExact :
    (a b : RationalParts) (op : Operation)
    → IsStored a
    → IsStored b
    → let (n, d) = value_of op a.numerator a.denominator b.numerator b.denominator in
      IsExact n d (calculate arithmetic_limits a b op)
calculate-IsExact a b add h k = calculate-fraction_of a b add h k
calculate-IsExact a b subtract h k = calculate-fraction_of a b subtract h k
calculate-IsExact a b multiply h k = calculate-fraction_of a b multiply h k
calculate-IsExact a b divide h k = calculate-fraction_of a b divide h k
