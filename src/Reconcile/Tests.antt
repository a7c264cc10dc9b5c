-- ===== src/Reconcile/Tests.antt =====
-- A closed signal that is measured in two passes.
use buy_not_buy_com.Common.{ℕ, ◌≡◌, refl, true, some, none, List, [], ◌∷◌, arith}
use buy_not_buy_com.Number.Integers.{Integer, int, integer_number}
use buy_not_buy_com.CandleSeries.{Candle}
use buy_not_buy_com.Outcome.{
  Direction, OutcomeConfig, measure_outcome, measure_horizon, measured, unmeasured, verdict_of,
  forward_fraction,
}
use buy_not_buy_com.Reconcile.{
  OutcomeRow, SettleInput, SettleSeries, ClosedSignal, settle, settle_horizons, upsert,
  reconcile_signal_outcomes, settle_signals, count_unresolved,
}
use buy_not_buy_com.Reconcile.Rows.{find_row, verdict_in}
use buy_not_buy_com.Reconcile.Passes.{
  run_passes, arrived, measured_with, run_passes-agree, resolved_is_final,
}

abbrev bar : ℕ → ℕ → Candle Integer
bar t price = record {
  timestamp = int t;
  open_price = int price;
  high = int price;
  low = int price;
  close = int price;
  volume = int 1;
}

abbrev config : OutcomeConfig Integer
config = record { horizons = 1 ∷ 2 ∷ []; breakeven_percent = int 100; track_excursions = true }

abbrev input : SettleInput Integer
input = record {
  symbol = "BTCUSDT";
  state_id = some 7;
  direction = Direction.long;
  entry_timestamp = int 1;
  entry_price = int 10;
  candles = [];
  closed_by = none;
  regime = none;
  data_quality = none;
  strategy_version_id = some 1;
  now = 0;
}

abbrev batches : List (List (Candle Integer) × ℕ)
batches = (bar 3 50 ∷ [], 20) ∷ []

run_passes-agree_example :
    verdict_in (find_row 7 2 (run_passes config input [] ((bar 2 20 ∷ [], 10) ∷ batches) []))
    ≡ some (measured_with config input (arrived config (bar 2 20 ∷ []) batches) 2).verdict
unfolding find_row
run_passes-agree_example =
    run_passes-agree config 7 2 input (bar 2 20 ∷ []) 10 batches [] refl refl (omega arith) refl

abbrev series : SettleSeries Integer
series = record {
  symbol = "BTCUSDT";
  candles = bar 2 5 ∷ bar 3 5 ∷ [];
  now = 30;
  strategy_version_id = none;
  regime = none;
  data_quality = none;
}

abbrev signal : ClosedSignal Integer
signal = record {
  id = 7;
  status = "EXPIRED";
  direction = Direction.long;
  candle_timestamp = int 1;
  price = int 10;
  snapshot_id = none;
}

abbrev stored : List (OutcomeRow Integer)
stored = run_passes config input [] ((bar 2 20 ∷ [], 10) ∷ batches) []

resolved_is_final_example :
    find_row 7 1 ((reconcile_signal_outcomes config series none (signal ∷ []) stored).0)
    ≡ find_row 7 1 stored
unfolding find_row run_passes settle settle_horizons upsert measure_outcome measure_horizon measured
    verdict_of forward_fraction unmeasured
resolved_is_final_example = resolved_is_final config 7 1 series none (signal ∷ []) stored refl

-- A series of which only the first bar has come leaves the signal waiting.
waits :
    (reconcile_signal_outcomes config
      (record series { candles = bar 2 5 ∷ [] })
      none
      (signal ∷ [])
      []).1
    ≡ record { examined = 1; rows = 2; still_waiting = 1 }
unfolding reconcile_signal_outcomes settle_signals settle settle_horizons upsert measure_outcome
    measure_horizon measured unmeasured verdict_of forward_fraction count_unresolved
waits = refl
