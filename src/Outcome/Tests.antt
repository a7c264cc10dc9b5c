-- ===== src/Outcome/Tests.antt =====
-- Outcomes of a signal at concrete prices.
use buy_not_buy_com.Common.{ℕ, ◌≡◌, refl, true, none, some, List, [], ◌∷◌, ◌++◌}
use buy_not_buy_com.Number.Integers.{Integer, int, integer_number}
use buy_not_buy_com.CandleSeries.{Candle}
use buy_not_buy_com.Outcome.{
  Direction, OutcomeConfig, OutcomeInput, measure_horizon, measured, measure_outcome, correct,
}
use buy_not_buy_com.Outcome.Lookahead.{measure_outcome_past}

abbrev bar : ℕ → ℕ → Candle Integer
bar t price = record {
  timestamp = int t;
  open_price = int price;
  high = int price;
  low = int price;
  close = int price;
  volume = int 1;
}

abbrev forward : List (Candle Integer)
forward = bar 2 20 ∷ bar 3 50 ∷ []

measured_at_second : measure_horizon Direction.long (int 10) (int 1) true forward 2 ≡ record {
  bars = 2;
  return_fraction = some (int 4);
  max_favourable = some (int 4);
  max_adverse = some (int 1);
  verdict = correct;
}
unfolding measure_horizon measured
measured_at_second = refl

abbrev config : OutcomeConfig Integer
config = record { horizons = 1 ∷ 2 ∷ []; breakeven_percent = int 100; track_excursions = true }

abbrev input : OutcomeInput Integer
input = record {
  symbol = "BTCUSDT";
  entry_timestamp = int 1;
  entry_price = int 10;
  direction = Direction.long;
  candles = [];
  closed_by = none;
}

measure_outcome_past_example :
    measure_outcome config (record input { candles = (bar 0 99 ∷ bar 1 10 ∷ []) ++ forward })
    ≡ measure_outcome config (record input { candles = forward })
measure_outcome_past_example =
    measure_outcome_past config input (bar 0 99 ∷ bar 1 10 ∷ []) forward (refl, (refl, tt))
