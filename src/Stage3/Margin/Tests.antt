-- ===== src/Stage3/Margin/Tests.antt =====
-- A position of one unit, bought at 100 with 50 in cash, and the theorems at it.
use buy_not_buy_com.Common.{ℕ, ◌≡◌, ◌↔◌, refl, true, false, some, arith}
use buy_not_buy_com.Common.Int.{pos, ◌*ℤ◌, ◌-ℤ◌, ◌+ℤ◌}
use buy_not_buy_com.Stage3.{calculate, RationalParts, arithmetic_limits}
use buy_not_buy_com.Stage3.Binary64.{Binary64, publish}
use buy_not_buy_com.Stage3.Margin.{
  LinearModelInput, valid, long, lt, calculate_pnl_equity, calculate_margin_requirements, equity_of,
}
use buy_not_buy_com.Stage3.Margin.Verdict.{
  MaintenanceVerdict, positive, above_threshold, reasons_of, calculate_maintenance_verdict,
  calculate_ratios_leverage,
}
use buy_not_buy_com.Stage3.Margin.Verdict.Breach.{Breaches, is_empty, published_verdict_exact}
use buy_not_buy_com.Stage3.Margin.Boundary.{root, is_positive, exact_boundary}
use buy_not_buy_com.Stage3.Margin.Boundary.Root.{exact_boundary-positive}

abbrev power_of_two : ℕ → Binary64
power_of_two encoded = record { negative = false; encoded_exponent = encoded; fraction = 0 }

-- 1.5625 times a power of two.
abbrev hundred_like : ℕ → Binary64
hundred_like encoded = record {
  negative = false;
  encoded_exponent = encoded;
  fraction = 2533274790395904;
}

abbrev bought_at_100 : LinearModelInput
bought_at_100 = record {
  side = long;
  qty_base = power_of_two 1023;
  entry_price = hundred_like 1029;
  valuation_price = hundred_like 1029;
  net_cash = hundred_like 1028;
  initial_margin_rate = power_of_two 1022;
  maintenance_margin_rate = power_of_two 1021;
  comparison = lt;
}

abbrev no_breach : MaintenanceVerdict
no_breach = record {
  exact_relation = positive;
  comparison = lt;
  state = above_threshold;
  detected = false;
}

equity_is_50 : equity_of bought_at_100 ≡ valid (record { numerator = pos 50; denominator = 1 })
unfolding equity_of arithmetic_limits ◌*ℤ◌ ◌-ℤ◌ ◌+ℤ◌
equity_is_50 = refl

leverage_is_2 :
    (calculate_ratios_leverage (some bought_at_100)).exact_gross_leverage
    ≡ valid (record { numerator = pos 2; denominator = 1 })
unfolding calculate_ratios_leverage arithmetic_limits ◌*ℤ◌ ◌-ℤ◌ ◌+ℤ◌
leverage_is_2 = refl

verdict : (calculate_maintenance_verdict (some bought_at_100)).maintenance ≡ valid no_breach
unfolding calculate_maintenance_verdict publish arithmetic_limits ◌*ℤ◌ ◌-ℤ◌ ◌+ℤ◌
verdict = refl

boundary_is_200_thirds :
    exact_boundary bought_at_100 ≡ valid (root (record { numerator = pos 200; denominator = 3 }))
unfolding exact_boundary calculate arithmetic_limits ◌*ℤ◌ ◌-ℤ◌ ◌+ℤ◌
boundary_is_200_thirds = refl

published_verdict_exact_example :
    let p = calculate_pnl_equity (some bought_at_100) in
    let r = calculate_margin_requirements (some bought_at_100) in
    (e : RationalParts) × (m : RationalParts) × (p.exact_equity ≡ valid e)
    × (r.exact_maintenance ≡ valid m)
    × ((false ≡ true) ↔ Breaches lt e m)
    × (is_empty (reasons_of p.equity) ≡ true)
    × (is_empty (reasons_of r.maintenance) ≡ true)
published_verdict_exact_example = published_verdict_exact bought_at_100 no_breach verdict

exact_boundary-positive_example :
    is_positive (record { numerator = pos 200; denominator = 3 }) ≡ true
exact_boundary-positive_example =
    exact_boundary-positive bought_at_100 (record { numerator = pos 200; denominator = 3 })
      (omega arith) (omega arith) (omega arith) (omega arith) boundary_is_200_thirds
