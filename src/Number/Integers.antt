-- ===== src/Number/Integers.antt =====
-- Integers with one more value for NaN: numbers that meet the laws, for runs on concrete inputs.
-- Quotients are rounded towards zero and a root is the number itself, since no law speaks of them.
use buy_not_buy_com.Common.{
  ℕ, ◌+◌, ◌*◌, ◌/◌, refl, Bool, true, false, not, Option, some, none, leb, ltb, ◌==◌, arith,
  if◌then◌else◌,
}
use buy_not_buy_com.Common.Int.{ℤ, pos, pos_part, neg_part, sub_ℕ}
use buy_not_buy_com.Number.{Number, IsOrdered}

abbrev pub Integer : Type 0
Integer = Option ℤ

abbrev lift₂ : (ℤ → ℤ → Integer) → Integer → Integer → Integer
lift₂ f (some a) (some b) = f a b
lift₂ f _ _ = none

abbrev test₂ : (ℤ → ℤ → Bool) → Integer → Integer → Bool
test₂ f (some a) (some b) = f a b
test₂ f _ _ = false

abbrev lift₁ : (ℤ → ℤ) → Integer → Integer
lift₁ f (some a) = some (f a)
lift₁ f none = none

abbrev is_some : Integer → Bool
is_some (some a) = true
is_some none = false

abbrev size : ℤ → ℕ
size a = pos_part a + neg_part a

abbrev same : Bool → Bool → Bool
same true b = b
same false b = not b

abbrev quotient : ℤ → ℤ → Integer
quotient a b =
    let q = size a / size b in
    if size b == 0
    then none
    else if same (neg_part a == 0) (neg_part b == 0)
    then some (pos q)
    else some (sub_ℕ 0 q)

abbrev below : ℤ → ℤ → Bool
below a b = ltb (pos_part a + neg_part b) (pos_part b + neg_part a)

abbrev pub int : ℕ → Integer
int n = some (pos n)

instance abbrev pub integer_number : Number Integer
integer_number = record {
  of_nat = int;
  add = lift₂ λ a b. some (sub_ℕ (pos_part a + pos_part b) (neg_part a + neg_part b));
  sub = lift₂ λ a b. some (sub_ℕ (pos_part a + neg_part b) (neg_part a + pos_part b));
  mul = lift₂ λ a b. some (
      sub_ℕ (pos_part a * pos_part b + neg_part a * neg_part b)
        (pos_part a * neg_part b + neg_part a * pos_part b));
  div = lift₂ quotient;
  neg = lift₁ λ a. sub_ℕ (neg_part a) (pos_part a);
  abs = lift₁ λ a. pos (size a);
  sqrt = λ a. a;
  round = λ a. a;
  min_of = lift₂ λ a b. some (if below a b then a else b);
  max_of = lift₂ λ a b. some (if below a b then b else a);
  is_finite = is_some;
  lt = test₂ below;
  le = test₂ λ a b. leb (pos_part a + neg_part b) (pos_part b + neg_part a);
  eq = test₂ λ a b. (pos_part a + neg_part b) == (pos_part b + neg_part a);
}

pub Integer-IsOrdered : IsOrdered Integer
Integer-IsOrdered = record {
  of_nat_finite = λ k. refl;
  lt_irrefl = λ a. ground arith;
  lt_trans = λ a b c h k. ground arith;
  le-not-lt = λ a b h k. ground arith;
  eq-not-lt = λ a b h k. ground arith;
  lt_of_le_lt = λ a b c h k. ground arith;
  lt_of_lt_le = λ a b c h k. ground arith;
}
