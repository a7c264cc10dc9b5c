-- ===== src/Stage3/Euclid.antt =====
-- The Euclidean loop: what it finds, and that it never meets its limit.
use native.Mathlib.Nat.{dvd_refl, dvd-zero, dvd-mod_iff, mod-eq-sub-mod, div-add-mod}
use mathlib.Core.Path.{subst}
use buy_not_buy_com.Common.{
  ℕ, zero, suc, ◌+◌, ◌-◌, ◌*◌, ◌%◌, ◌^◌, ◌≤◌, ◌<◌, ◌≡◌, ◌≢◌, refl, sym, some, none, ◌∣◌, arith,
}
use buy_not_buy_com.Stage3.{euclid}

mod_halves : (b r : ℕ) → 0 < r → r < b → 2 * (b % r) < b
mod_halves b r h k = grind (arith, mod-eq-sub-mod {n = b} {m = r}, div-add-mod (b - r) r)

-- Two steps halve the second operand, so that 2k steps are enough below 2 ^ k.
pub euclid_enough : (k left a b : ℕ) → b < 2 ^ k → k + k ≤ left → euclid left a b ≢ none
unfolding euclid
euclid_enough k zero a b h i = ground arith
euclid_enough k (suc zero) a b h i = ground arith
euclid_enough zero (suc (suc left)) a b h i = ground arith
euclid_enough (suc k) (suc (suc left)) a b h i =
    ground (arith, euclid_enough k left (a % b) (b % (a % b)), mod_halves b (a % b))

-- A common divisor that every common divisor divides.
pub record IsGcd (g a b : ℕ) : Type 0 where
  pub left_divides : g ∣ a
  pub right_divides : g ∣ b
  pub is_greatest : (c : ℕ) → c ∣ a → c ∣ b → c ∣ g

IsGcd-zero : (a : ℕ) → IsGcd a a 0
IsGcd-zero a = record {
  left_divides = dvd_refl a;
  right_divides = dvd-zero a;
  is_greatest = λ c h k. h;
}

found-IsGcd : (a b g : ℕ) → b ≡ 0 → a ≡ g → IsGcd g a b
found-IsGcd a b g h k = subst (λ x. IsGcd x a b) k (subst (λ y. IsGcd a a y) (sym h) (IsGcd-zero a))

IsGcd-mod : (g a b : ℕ) → IsGcd g b (a % b) → IsGcd g a b
IsGcd-mod g a b h = record {
  left_divides = (dvd-mod_iff g h.left_divides).0 h.right_divides;
  right_divides = h.left_divides;
  is_greatest = λ c i j. h.is_greatest c j ((dvd-mod_iff c j).1 i);
}

pub euclid-IsGcd : (left a b g : ℕ) → euclid left a b ≡ some g → IsGcd g a b
unfolding euclid
euclid-IsGcd zero a b g h = found-IsGcd a b g (ground (arith, h)) (ground (arith, h))
euclid-IsGcd (suc left) a zero g h = found-IsGcd a 0 g refl (ground (arith, h))
euclid-IsGcd (suc left) a (suc b) g h =
    IsGcd-mod g a (suc b) (euclid-IsGcd left (suc b) (a % suc b) g (ground (arith, h)))
