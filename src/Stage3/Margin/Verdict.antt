-- ===== src/Stage3/Margin/Verdict.antt =====
-- src/backend/risk/stage3/maintenance-verdict.ts and ratios-leverage.ts: the verdict on the maintenance
-- margin, and the ratios with their domains.
use mathlib.Core.Path.{subst}
use buy_not_buy_com.Common.{
  ℕ, ◌+◌, ◌*◌, ◌≤◌, ◌<◌, ◌≡◌, ◌↔◌, refl, ap, Bool, true, false, ◌||◌, Option, some, none, List, [],
  ◌∷◌, ◌++◌, if◌then◌else◌, arith,
}
use buy_not_buy_com.Common.Int.{ℤ, pos, ◌*ℤ◌, ◌≤ℤ◌, ltb_ℤ, pos_part, neg_part}
use buy_not_buy_com.Stage3.{
  RationalParts, Ordered, less, equal, greater, compare_rationals, multiply, divide, calculate,
  arithmetic_limits,
}
use buy_not_buy_com.Stage3.Binary64.{Binary64, FiniteNumber}
use buy_not_buy_com.Stage3.Margin.{
  Reason, numeric_underflow, numeric_overflow, numeric_resource_limit, calculation_failed,
  non_positive_equity, zero_collateral, Result, valid, not_applicable, calculation_error,
  Comparison, lt, lte, LinearModelInput, Handle, untrusted, result_of, read_number, combine,
  publication, calculate_pnl_equity, calculate_margin_requirements,
}
pub mod Breach

pub data ExactRelation : Type 0 where
  positive zero_difference negative : ExactRelation

pub data MarginState : Type 0 where
  above_threshold at_threshold below_threshold : MarginState

pub record MaintenanceVerdict : Type 0 where
  pub exact_relation : ExactRelation
  pub comparison : Comparison
  pub state : MarginState
  pub detected : Bool

abbrev pub relation_of : Ordered → ExactRelation
relation_of greater = positive
relation_of less = negative
relation_of equal = zero_difference

abbrev pub state_of : Ordered → MarginState
state_of greater = above_threshold
state_of less = below_threshold
state_of equal = at_threshold

abbrev pub is_detected : Comparison → Ordered → Bool
is_detected c less = true
is_detected lte equal = true
is_detected c _ = false

-- `compare` of two handles that were issued does not fail.
pub classification :
    Result RationalParts → Result RationalParts → Comparison → Result MaintenanceVerdict
unfolding compare_rationals
classification (valid e) (valid m) c =
    let order = compare_rationals e m in
    valid (record {
      exact_relation = relation_of order;
      comparison = c;
      state = state_of order;
      detected = is_detected c order;
    })
classification (valid e) (not_applicable r) c = not_applicable r
classification (valid e) (calculation_error r rs) c = calculation_error r rs
classification (not_applicable r) m c = not_applicable r
classification (calculation_error r rs) m c = calculation_error r rs

abbrev pub is_reason : Reason → Reason → Bool
is_reason numeric_underflow numeric_underflow = true
is_reason numeric_overflow numeric_overflow = true
is_reason numeric_resource_limit numeric_resource_limit = true
is_reason calculation_failed calculation_failed = true
is_reason non_positive_equity non_positive_equity = true
is_reason zero_collateral zero_collateral = true
is_reason _ _ = false

abbrev pub includes : Reason → List Reason → Bool
includes r [] = false
includes r (x ∷ xs) = is_reason x r || includes r xs

pub add_reasons : List Reason → List Reason → List Reason
add_reasons reasons [] = reasons
add_reasons reasons (r ∷ rs) =
    add_reasons (if includes r reasons then reasons else reasons ++ r ∷ []) rs

pub reasons_of : {A : Type 0} → Result A → List Reason
reasons_of (valid x) = []
reasons_of (not_applicable r) = r ∷ []
reasons_of (calculation_error r rs) = r ∷ rs

abbrev pub or_error : List Reason → Result MaintenanceVerdict → Result MaintenanceVerdict
or_error [] exact = exact
or_error (r ∷ rs) exact = calculation_error r rs

pub verdict_publication :
    Result MaintenanceVerdict
    → Result FiniteNumber
    → Result FiniteNumber
    → Result MaintenanceVerdict
unfolding add_reasons reasons_of
verdict_publication exact equity maintenance =
    or_error
      (add_reasons (add_reasons (add_reasons [] (reasons_of equity)) (reasons_of maintenance))
        (reasons_of exact))
      exact

pub record MaintenanceCalculation : Type 0 where
  pub exact : Result MaintenanceVerdict
  pub maintenance : Result MaintenanceVerdict

unfoldable pub calculate_maintenance_verdict : Handle → MaintenanceCalculation
unfolding classification verdict_publication calculate_pnl_equity calculate_margin_requirements
calculate_maintenance_verdict none = record { exact = untrusted; maintenance = untrusted }
calculate_maintenance_verdict (some i) =
    let equity = calculate_pnl_equity (some i) in
    let margins = calculate_margin_requirements (some i) in
    let exact = classification equity.exact_equity margins.exact_maintenance i.comparison in
    record {
      exact = exact;
      maintenance = verdict_publication exact equity.equity margins.maintenance;
    }

-- `zero` is the fraction of the number 0.
pub positive_denominator_division :
    Result RationalParts → Result RationalParts → RationalParts → Reason → Result RationalParts
unfolding compare_rationals result_of
positive_denominator_division numerator (valid d) zero reason = elim (compare_rationals d zero) [
  | less ↦
      if is_reason reason zero_collateral
      then calculation_error calculation_failed []
      else not_applicable reason
  | equal ↦ not_applicable reason
  | greater ↦ combine divide numerator (valid d)
]
positive_denominator_division numerator (not_applicable r) zero reason = not_applicable r
positive_denominator_division numerator (calculation_error r rs) zero reason =
    calculation_error r rs

pub record RatiosLeverage : Type 0 where
  pub exact_entry_notional : Result RationalParts
  pub exact_requirement_to_equity : Result RationalParts
  pub exact_gross_leverage : Result RationalParts
  pub exact_collateral_leverage : Result RationalParts
  pub requirement_to_equity : Result FiniteNumber
  pub gross_leverage : Result FiniteNumber
  pub collateral_leverage : Result FiniteNumber

pub finish_ratios :
    Result RationalParts
    → Result RationalParts
    → Result RationalParts
    → Result RationalParts
    → RatiosLeverage
unfolding publication
finish_ratios notional ratio effective collateral = record {
  exact_entry_notional = notional;
  exact_requirement_to_equity = ratio;
  exact_gross_leverage = effective;
  exact_collateral_leverage = collateral;
  requirement_to_equity = publication ratio;
  gross_leverage = publication effective;
  collateral_leverage = publication collateral;
}

-- `fromBinary64(0)`.
abbrev pub zero_fraction : RationalParts
zero_fraction = record { numerator = pos 0; denominator = 1 }

unfoldable pub calculate_ratios_leverage : Handle → RatiosLeverage
unfolding finish_ratios positive_denominator_division calculate_pnl_equity
    calculate_margin_requirements combine read_number
calculate_ratios_leverage none = finish_ratios untrusted untrusted untrusted untrusted
calculate_ratios_leverage (some i) =
    let notional = combine multiply (read_number i.qty_base) (read_number i.entry_price) in
    let equity = (calculate_pnl_equity (some i)).exact_equity in
    let margins = calculate_margin_requirements (some i) in
    finish_ratios notional
      (positive_denominator_division margins.exact_maintenance equity zero_fraction
        non_positive_equity)
      (positive_denominator_division margins.exact_notional equity zero_fraction
        non_positive_equity)
      (positive_denominator_division notional (read_number i.net_cash) zero_fraction
        zero_collateral)
