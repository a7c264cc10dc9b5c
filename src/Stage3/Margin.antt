-- ===== src/Stage3/Margin.antt =====
-- src/backend/risk/stage3/pnl-equity.ts, margin-requirements.ts, maintenance-verdict.ts,
-- ratios-leverage.ts and liquidation-boundary.ts. A handle is what its reading and validation give:
-- `none` if it is refused, and the numbers of a supported input otherwise. That the reads agree between
-- the calculations holds since the cached text does not change.
use buy_not_buy_com.Common.{
  ℕ, ◌+◌, ◌≡◌, Bool, true, false, Option, some, none, List, [], ◌∷◌, ◌++◌, if◌then◌else◌,
}
use buy_not_buy_com.Common.Int.{ℤ, pos}
use buy_not_buy_com.Stage3.{
  arithmetic_limits, RationalParts, NumericResult, success, failure, NumericError, resource_limit,
  division_by_zero, Operation, add, subtract, multiply, divide, calculate, rational, Ordered, less,
  equal, greater, compare_rationals,
}
use buy_not_buy_com.Stage3.Binary64.{
  Binary64, FiniteNumber, Published, published, underflow, overflow, from_binary64, publish,
}
pub mod Verdict
pub mod Boundary
mod Tests

-- The reasons that these files give.
pub data Reason : Type 0 where
  numeric_underflow numeric_overflow numeric_resource_limit calculation_failed : Reason
  non_positive_equity zero_collateral : Reason

-- The reasons of an error are one and more; `valid` has none.
pub data Result (A : Type 0) : Type 0 where
  valid : A → Result A
  not_applicable : Reason → Result A
  calculation_error : Reason → List Reason → Result A

pub data Side : Type 0 where
  long short : Side

pub data Comparison : Type 0 where
  lt lte : Comparison

pub record LinearModelInput : Type 0 where
  pub side : Side
  pub qty_base : Binary64
  pub entry_price : Binary64
  pub valuation_price : Binary64
  pub net_cash : Binary64
  pub initial_margin_rate : Binary64
  pub maintenance_margin_rate : Binary64
  pub comparison : Comparison

abbrev pub Handle : Type 0
Handle = Option LinearModelInput

abbrev pub code_of : NumericError → Reason
code_of resource_limit = numeric_resource_limit
code_of division_by_zero = calculation_failed

-- The helper that the files call `result` or `numeric`.
pub result_of : {A : Type 0} → NumericResult A → Result A
result_of (success x) = valid x
result_of (failure e) = calculation_error (code_of e) []

pub read_number : Binary64 → Result RationalParts
unfolding result_of from_binary64
read_number b = result_of (from_binary64 arithmetic_limits b)

pub combine : Operation → Result RationalParts → Result RationalParts → Result RationalParts
unfolding result_of calculate
combine operation (valid a) (valid b) = result_of (calculate arithmetic_limits a b operation)
combine operation (valid a) (not_applicable r) = not_applicable r
combine operation (valid a) (calculation_error r rs) = calculation_error r rs
combine operation (not_applicable r) b = not_applicable r
combine operation (calculation_error r rs) b = calculation_error r rs

pub publication : Result RationalParts → Result FiniteNumber
unfolding publish
publication (valid x) = elim (publish x) [
  | published n ↦ valid n
  | underflow ↦ calculation_error numeric_underflow []
  | overflow ↦ calculation_error numeric_overflow []
]
publication (not_applicable r) = not_applicable r
publication (calculation_error r rs) = calculation_error r rs

abbrev pub untrusted : {A : Type 0} → Result A
untrusted = calculation_error calculation_failed []

pub difference_of : Side → Result RationalParts → Result RationalParts → Result RationalParts
unfolding combine
difference_of long price entry = combine subtract price entry
difference_of short price entry = combine subtract entry price

pub unrealized_pnl : LinearModelInput → Result RationalParts
unfolding combine read_number difference_of
unrealized_pnl i =
    let entry = read_number i.entry_price in
    let price = read_number i.valuation_price in
    combine multiply (read_number i.qty_base) (difference_of i.side price entry)

pub equity_of : LinearModelInput → Result RationalParts
unfolding unrealized_pnl
equity_of i = combine add (read_number i.net_cash) (unrealized_pnl i)

pub record PnlEquity : Type 0 where
  pub exact_pnl : Result RationalParts
  pub exact_equity : Result RationalParts
  pub pnl : Result FiniteNumber
  pub equity : Result FiniteNumber

pub calculate_pnl_equity : Handle → PnlEquity
unfolding publication equity_of
calculate_pnl_equity none = record {
  exact_pnl = untrusted;
  exact_equity = untrusted;
  pnl = untrusted;
  equity = untrusted;
}
calculate_pnl_equity (some i) = record {
  exact_pnl = unrealized_pnl i;
  exact_equity = equity_of i;
  pnl = publication (unrealized_pnl i);
  equity = publication (equity_of i);
}

pub record MarginRequirements : Type 0 where
  pub exact_notional : Result RationalParts
  pub exact_initial : Result RationalParts
  pub exact_maintenance : Result RationalParts
  pub exact_buffer : Result RationalParts
  pub exact_surplus : Result RationalParts
  pub initial : Result FiniteNumber
  pub maintenance : Result FiniteNumber
  pub buffer : Result FiniteNumber
  pub surplus : Result FiniteNumber

pub finish_requirements :
    Result RationalParts
    → Result RationalParts
    → Result RationalParts
    → Result RationalParts
    → Result RationalParts
    → MarginRequirements
unfolding publication
finish_requirements notional initial maintenance buffer surplus = record {
  exact_notional = notional;
  exact_initial = initial;
  exact_maintenance = maintenance;
  exact_buffer = buffer;
  exact_surplus = surplus;
  initial = publication initial;
  maintenance = publication maintenance;
  buffer = publication buffer;
  surplus = publication surplus;
}

pub calculate_margin_requirements : Handle → MarginRequirements
unfolding finish_requirements calculate_pnl_equity combine read_number
calculate_margin_requirements none =
    finish_requirements untrusted untrusted untrusted untrusted untrusted
calculate_margin_requirements (some i) =
    let notional = combine multiply (read_number i.qty_base) (read_number i.valuation_price) in
    let initial = combine multiply (read_number i.initial_margin_rate) notional in
    let maintenance = combine multiply (read_number i.maintenance_margin_rate) notional in
    let equity = (calculate_pnl_equity (some i)).exact_equity in
    finish_requirements notional initial maintenance (combine subtract equity maintenance)
      (combine subtract equity initial)
