-- ===== src/Stage3/Margin/Boundary/Root.antt =====
-- The price of the boundary is positive.
use mathlib.Core.Path.{subst}
use native.Mathlib.Nat.{mul-pos}
use buy_not_buy_com.Common.{
  ℕ, zero, suc, ◌-◌, ◌*◌, ◌^◌, ◌<◌, ◌≡◌, ◌≢◌, refl, sym, ap, ◌∙◌, ◌↔◌, inl, inr, Bool, true, false,
  Bool-cases, if◌then◌else◌, max, arith,
}
use buy_not_buy_com.Common.Int.{ℤ, pos, negsuc, ◌*ℤ◌, pos_part}
use buy_not_buy_com.Stage3.{
  arithmetic_limits, RationalParts, NumericResult, success, failure, Operation, multiply, divide,
  calculate, fraction_of, with_sign, compare_rationals,
}
use buy_not_buy_com.Stage3.Exact.{IsExact, IsStored, calculate-fraction_of}
use buy_not_buy_com.Stage3.Binary64.{Binary64, from_binary64, significand_of}
use buy_not_buy_com.Stage3.Binary64.Nearest.{from_binary64-IsExact}
use buy_not_buy_com.Stage3.Margin.{
  Result, valid, not_applicable, calculation_error, Side, long, short, LinearModelInput, result_of,
  read_number, untrusted,
}
use buy_not_buy_com.Stage3.Margin.Boundary.{
  ExactBoundary, root, no_root, bind, operate, one_fraction, sign_operation, is_positive, root_of,
  root_value, exact_boundary,
}

bind-valid :
    {A B : Type 0} (x : Result A) (f : A → Result B) (y : B)
    → bind x f ≡ valid y
    → (a : A) × (x ≡ valid a) × (f a ≡ valid y)
unfolding bind
bind-valid (valid a) f y h = (a, refl, h)
bind-valid (not_applicable r) f y h = ground arith
bind-valid (calculation_error r rs) f y h = ground arith

result_of-valid : {A : Type 0} (x : NumericResult A) (a : A) → result_of x ≡ valid a → x ≡ success a
unfolding result_of
result_of-valid (success b) a h = ground arith
result_of-valid (failure e) a h = ground arith

-- What an operation on stored fractions returns is stored.
operate-IsExact :
    (op : Operation) (a b q : RationalParts)
    → IsStored a
    → IsStored b
    → operate op a b ≡ valid q
    → let f = fraction_of op a b in IsExact f.0 f.1 (success q)
operate-IsExact op a b q ha hb h =
    let f = fraction_of op a b in
    subst (IsExact f.0 f.1) (result_of-valid (calculate arithmetic_limits a b op) q h)
      (calculate-fraction_of a b op ha hb)

operate-IsStored :
    (op : Operation) (a b q : RationalParts)
    → IsStored a
    → IsStored b
    → operate op a b ≡ valid q
    → IsStored q
operate-IsStored op a b q ha hb h = (operate-IsExact op a b q ha hb h).3

read_number-IsStored :
    (b : Binary64) (q : RationalParts)
    → b.encoded_exponent < 2047
    → read_number b ≡ valid q
    → IsStored q
unfolding read_number
read_number-IsStored b q finite h =
    let e = max b.encoded_exponent 1 in
    (subst
      (IsExact (with_sign b.negative (significand_of b * 2 ^ (e - 1075))) (pos (2 ^ (1075 - e))))
      (result_of-valid (from_binary64 arithmetic_limits b) q h) (from_binary64-IsExact b finite)).3

is_positive_iff : (q : RationalParts) → (is_positive q ≡ true) ↔ (0 < pos_part q.numerator)
unfolding compare_rationals ◌*ℤ◌
is_positive_iff q = ground arith

times_parts : (a b : ℕ) → pos a *ℤ pos b ≡ pos (a * b)
unfolding ◌*ℤ◌
times_parts a b = ground arith

positive_factor : (x : ℤ) (a b : ℕ) → 0 < b → x *ℤ pos a ≡ pos b → 0 < pos_part x
unfolding ◌*ℤ◌
positive_factor (pos zero) a b h e = ground (arith, h, e)
positive_factor (pos (suc k)) a b h e = omega arith
positive_factor (negsuc k) a b h e = ground (arith, h, e)

positive_quotient :
    (x : ℤ) (nd n d dd rd : ℕ)
    → 0 < n
    → 0 < dd
    → 0 < rd
    → x *ℤ (pos nd *ℤ pos d) ≡ pos n *ℤ pos dd *ℤ pos rd
    → 0 < pos_part x
positive_quotient x nd n d dd rd hn hdd hrd e =
    positive_factor x (nd * d) (n * dd * rd) (mul-pos (mul-pos hn hdd) hrd) (
      ap (λ y. x *ℤ y) (sym (times_parts nd d))
      ∙ e
      ∙ ap (λ y. y *ℤ pos rd) (times_parts n dd)
      ∙ times_parts (n * dd) rd)

positive_form : (x : ℤ) → 0 < pos_part x → (n : ℕ) × (x ≡ pos n) × (0 < n)
positive_form (pos n) h = (n, refl, h)
positive_form (negsuc n) h = absurd (omega arith)

divide-positive :
    (a b r : RationalParts)
    → IsStored a
    → IsStored b
    → is_positive a ≡ true
    → is_positive b ≡ true
    → operate divide a b ≡ valid r
    → is_positive r ≡ true
divide-positive a b r ha hb pa pb h =
    let (n, is_n, n_pos) = positive_form a.numerator ((is_positive_iff a).0 pa) in
    let (d, is_d, d_pos) = positive_form b.numerator ((is_positive_iff b).0 pb) in
    let exact = operate-IsExact divide a b r ha hb h in
    (is_positive_iff r).1 (
      positive_quotient r.numerator a.denominator n d b.denominator r.denominator n_pos hb.positive
        exact.3.positive
        (ap (λ z. r.numerator *ℤ (pos a.denominator *ℤ z)) (sym is_d)
          ∙ exact.1
          ∙ ap (λ z. z *ℤ pos b.denominator *ℤ pos r.denominator) is_n))

taken : {A : Type 0} (b : Bool) (x y z : A) → b ≡ true → (if b then x else y) ≡ z → x ≡ z
taken true x y z h e = e
taken false x y z h e = cc

otherwise : {A : Type 0} (b : Bool) (x y z : A) → b ≡ false → (if b then x else y) ≡ z → y ≡ z
otherwise true x y z h e = cc
otherwise false x y z h e = e

abbrev without_root : Side → Result ExactBoundary
without_root side = elim side [ long ↦ valid no_root | short ↦ untrusted ]

not_root : (side : Side) (r : RationalParts) → without_root side ≢ valid (root r)
not_root long r h = ground arith
not_root short r h = ground arith

abbrev root_or : RationalParts → Result ExactBoundary → RationalParts
root_or given (valid (root r)) = r
root_or given _ = given

root_of-positive :
    (side : Side) (n d r : RationalParts)
    → IsStored n
    → IsStored d
    → is_positive d ≡ true
    → root_of side n d ≡ valid (root r)
    → is_positive r ≡ true
unfolding root_of
root_of-positive side n d r hn hd pd h = elim (Bool-cases (is_positive n)) [
  | inl pn ↦
      let (q, given, same) =
        bind-valid (operate divide n d) (λ x. valid (root x)) (root r)
          (taken (is_positive n) _ _ (valid (root r)) pn h) in
      subst (λ x. is_positive x ≡ true) (ap (root_or r) same)
        (divide-positive n d q hn hd pn pd given)
  | inr pn ↦ absurd (not_root side r (otherwise (is_positive n) _ _ (valid (root r)) pn h))
]

untrusted_root : (r : RationalParts) → untrusted ≢ valid (root r)
untrusted_root r h = ground arith

one-IsStored : IsStored one_fraction
unfolding arithmetic_limits
one-IsStored = record {
  small_numerator = omega arith;
  small_denominator = omega arith;
  positive = omega arith;
}

root_value-positive :
    (side : Side) (q e c m r : RationalParts)
    → IsStored q
    → IsStored e
    → IsStored c
    → IsStored m
    → root_value side q e c m ≡ valid (root r)
    → is_positive r ≡ true
unfolding root_value
root_value-positive side q e c m r hq he hc hm h =
    let (n0, is_n0, h1) = bind-valid (operate multiply q e) _ (root r) h in
    let (f, is_f, h2) = bind-valid (operate (sign_operation side) one_fraction m) _ (root r) h1 in
    let (d, is_d, h3) = bind-valid (operate multiply q f) _ (root r) h2 in
    let hn0 = operate-IsStored multiply q e n0 hq he is_n0 in
    let hf = operate-IsStored (sign_operation side) one_fraction m f one-IsStored hm is_f in
    let hd = operate-IsStored multiply q f d hq hf is_d in
    elim (Bool-cases (is_positive d)) [
      | inl pd ↦
          let h4 = taken (is_positive d) _ _ (valid (root r)) pd h3 in
          let (n, is_n, h5) = bind-valid (operate (sign_operation side) n0 c) _ (root r) h4 in
          root_of-positive side n d r (operate-IsStored (sign_operation side) n0 c n hn0 hc is_n) hd
            pd h5
      | inr pd ↦ absurd (untrusted_root r (otherwise (is_positive d) _ _ (valid (root r)) pd h3))
    ]

-- The exact boundary of a position, if it has one, is a positive price, whatever finite numbers the
-- position and the policy have.
pub exact_boundary-positive :
    (i : LinearModelInput) (r : RationalParts)
    → i.qty_base.encoded_exponent < 2047
    → i.entry_price.encoded_exponent < 2047
    → i.net_cash.encoded_exponent < 2047
    → i.maintenance_margin_rate.encoded_exponent < 2047
    → exact_boundary i ≡ valid (root r)
    → is_positive r ≡ true
unfolding exact_boundary
exact_boundary-positive i r fq fe fc fm h =
    let (q, is_q, h1) = bind-valid (read_number i.qty_base) _ (root r) h in
    let (e, is_e, h2) = bind-valid (read_number i.entry_price) _ (root r) h1 in
    let (c, is_c, h3) = bind-valid (read_number i.net_cash) _ (root r) h2 in
    let (m, is_m, h4) = bind-valid (read_number i.maintenance_margin_rate) _ (root r) h3 in
    root_value-positive i.side q e c m r (read_number-IsStored i.qty_base q fq is_q)
      (read_number-IsStored i.entry_price e fe is_e) (read_number-IsStored i.net_cash c fc is_c)
      (read_number-IsStored i.maintenance_margin_rate m fm is_m) h4
