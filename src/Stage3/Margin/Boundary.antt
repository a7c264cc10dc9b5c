-- ===== src/Stage3/Margin/Boundary.antt =====
-- src/backend/risk/stage3/liquidation-boundary.ts: the price at which the equity meets the maintenance
-- margin.
use buy_not_buy_com.Common.{ℕ, Bool, true, false, Option, some, none, List, [], ◌∷◌, if◌then◌else◌}
use buy_not_buy_com.Common.Int.{ℤ, pos, negsuc}
use buy_not_buy_com.Stage3.{
  arithmetic_limits, RationalParts, Operation, add, subtract, multiply, divide, calculate, Ordered,
  less, equal, greater, compare_rationals,
}
use buy_not_buy_com.Stage3.Binary64.{Binary64, FiniteNumber}
use buy_not_buy_com.Stage3.Margin.{
  Result, valid, not_applicable, calculation_error, calculation_failed, Side, long, short,
  Comparison, lt, lte, LinearModelInput, Handle, untrusted, result_of, read_number, publication,
}
use buy_not_buy_com.Stage3.Margin.Verdict.{
  MaintenanceVerdict, MaintenanceCalculation, calculate_maintenance_verdict, zero_fraction,
}
pub mod Root

pub data ExactBoundary : Type 0 where
  root : RationalParts → ExactBoundary
  no_root : ExactBoundary

-- A boundary has its price, whether the policy triggers at it, and the side whose losses lead there.
pub data BoundaryValue : Type 0 where
  boundary : FiniteNumber → Bool → Side → BoundaryValue
  unreachable already_breached : BoundaryValue

-- An early return of what failed.
pub bind : {A B : Type 0} → Result A → (A → Result B) → Result B
bind (valid x) f = f x
bind (not_applicable r) f = not_applicable r
bind (calculation_error r rs) f = calculation_error r rs

abbrev pub operate : Operation → RationalParts → RationalParts → Result RationalParts
operate operation a b = result_of (calculate arithmetic_limits a b operation)

abbrev pub one_fraction : RationalParts
one_fraction = record { numerator = pos 1; denominator = 1 }

abbrev pub sign_operation : Side → Operation
sign_operation long = subtract
sign_operation short = add

abbrev pub is_positive : RationalParts → Bool
is_positive q = elim (compare_rationals q zero_fraction) [ greater ↦ true | _ ↦ false ]

-- The end of `rootValue`, behind the numerator.
pub root_of : Side → RationalParts → RationalParts → Result ExactBoundary
unfolding bind result_of compare_rationals
root_of side numerator denominator =
    if is_positive numerator
    then bind (operate divide numerator denominator) (λ r. valid (root r))
    else elim side [ long ↦ valid no_root | short ↦ untrusted ]

pub root_value :
    Side → RationalParts → RationalParts → RationalParts → RationalParts → Result ExactBoundary
unfolding root_of
root_value side quantity entry cash rate = bind (operate multiply quantity entry) (λ notional.
    bind (operate (sign_operation side) one_fraction rate) (λ factor.
      bind (operate multiply quantity factor) (λ denominator.
        if is_positive denominator
        then bind (operate (sign_operation side) notional cash)
            (λ numerator. root_of side numerator denominator)
        else untrusted)))

unfoldable pub exact_boundary : LinearModelInput → Result ExactBoundary
unfolding root_value read_number
exact_boundary i = bind (read_number i.qty_base) (λ quantity.
    bind (read_number i.entry_price) (λ entry. bind (read_number i.net_cash) (λ cash.
      bind (read_number i.maintenance_margin_rate)
        (λ rate. root_value i.side quantity entry cash rate))))

pub record LiquidationBoundary : Type 0 where
  pub exact_maintenance : Result MaintenanceVerdict
  pub exact : Result ExactBoundary
  pub published : Result BoundaryValue

abbrev pub triggers : Comparison → Bool
triggers lt = false
triggers lte = true

pub publish_boundary : LinearModelInput → ExactBoundary → Result BoundaryValue
unfolding publication
publish_boundary i no_root = valid unreachable
publish_boundary i (root r) =
    bind (publication (valid r)) (λ price. valid (boundary price (triggers i.comparison) i.side))

unfoldable pub calculate_liquidation_boundary : Handle → LiquidationBoundary
unfolding exact_boundary publish_boundary
calculate_liquidation_boundary none = record {
  exact_maintenance = untrusted;
  exact = untrusted;
  published = untrusted;
}
calculate_liquidation_boundary (some i) =
    let current = (calculate_maintenance_verdict (some i)).exact in
    let exact = exact_boundary i in
    record {
      exact_maintenance = current;
      exact = exact;
      published =
          bind current
            (λ v. if v.detected then valid already_breached else bind exact (publish_boundary i));
    }
