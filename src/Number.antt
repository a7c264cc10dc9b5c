-- ===== src/Number.antt =====
-- The numbers of the language (`number`, binary64) as far as the modelled code computes with them.
-- The arithmetic itself is the runtime's: a parameter `N` with its operations. What a proof relies on
-- of it is the record `IsOrdered`, which states documented behaviour of comparisons: NaN and the
-- infinities aside, they form a total order.
use buy_not_buy_com.Common.{ℕ, ◌≡◌, Bool, true, false, not, ◌&&◌}
pub mod Integers

pub record Number {ℓ} (N : Type ℓ) : Type ℓ where
  pub of_nat : ℕ → N
  pub add : N → N → N
  pub sub : N → N → N
  pub mul : N → N → N
  pub div : N → N → N
  pub neg : N → N
  pub abs : N → N
  pub sqrt : N → N
  pub round : N → N
  pub min_of : N → N → N
  pub max_of : N → N → N
  pub is_finite : N → Bool
  pub lt : N → N → Bool
  pub le : N → N → Bool
  pub eq : N → N → Bool

-- Comparisons of finite numbers.
pub record IsOrdered {ℓ} (N : Type ℓ) ⦃n : Number N⦄ : Type ℓ where
  pub of_nat_finite : (k : ℕ) → n.is_finite (n.of_nat k) ≡ true
  pub lt_irrefl : (a : N) → n.lt a a ≡ false
  pub lt_trans : (a b c : N) → n.lt a b ≡ true → n.lt b c ≡ true → n.lt a c ≡ true
  pub le-not-lt :
      (a b : N) → n.is_finite a ≡ true → n.is_finite b ≡ true → n.le a b ≡ not (n.lt b a)
  pub eq-not-lt :
      (a b : N)
      → n.is_finite a ≡ true
      → n.is_finite b ≡ true
      → n.eq a b ≡ (not (n.lt a b) && not (n.lt b a))
  pub lt_of_le_lt : (a b c : N) → n.le a b ≡ true → n.lt b c ≡ true → n.lt a c ≡ true
  pub lt_of_lt_le : (a b c : N) → n.lt a b ≡ true → n.le b c ≡ true → n.lt a c ≡ true
