-- ===== src/CandleSeries.antt =====
-- src/backend/market/candle-validation.ts: the checks of a series of candles. All six fields of a
-- candle are numbers of the runtime (Number.antt), times too.
use Prim.Native.String.{String}
use buy_not_buy_com.Common.{
  ℕ, Bool, true, false, not, ◌&&◌, ◌||◌, Option, some, none, List, [], ◌∷◌, ltb, length,
  if◌then◌else◌,
}
use buy_not_buy_com.Number.{Number}
pub mod Bar
pub mod Order
mod Tests

pub record Candle (N : Type 0) : Type 0 where
  pub timestamp : N
  pub open_price : N
  pub high : N
  pub low : N
  pub close : N
  pub volume : N

pub data CandleSeriesIssue : Type 0 where
  empty too_many not_increasing duplicate from_the_future not_finite negative : CandleSeriesIssue
  ohlc_inconsistent has_gap stale : CandleSeriesIssue

-- What the two assertions throw, with the fields of `cause`.
pub record MarketDataError : Type 0 where
  pub provider : String
  pub issue : CandleSeriesIssue
  pub candle_count : ℕ

-- `a ?? b`, for the issue found first.
abbrev pub first_issue :
    Option CandleSeriesIssue → Option CandleSeriesIssue → Option CandleSeriesIssue
first_issue (some i) rest = some i
first_issue none rest = rest

-- `none` is a return, and an error is thrown.
abbrev fail_on : Option CandleSeriesIssue → String → ℕ → Option MarketDataError
fail_on none provider count = none
fail_on (some issue) provider count =
    some (record { provider = provider; issue = issue; candle_count = count })

module _ {N : Type 0} ⦃n : Number N⦄ where
  open n use {of_nat, sub, mul, is_finite, lt, le, eq}

  unfoldable pub find_candle_continuity_issue : List (Candle N) → N → Option CandleSeriesIssue
  find_candle_continuity_issue [] interval_ms = none
  find_candle_continuity_issue (earlier ∷ []) interval_ms = none
  find_candle_continuity_issue (earlier ∷ later ∷ rest) interval_ms =
      first_issue
        (if le (mul interval_ms (of_nat 2)) (sub later.timestamp earlier.timestamp)
          then some has_gap
          else none)
        (find_candle_continuity_issue (later ∷ rest) interval_ms)

  unfoldable pub is_all_finite : Candle N → Bool
  is_all_finite c =
      is_finite c.timestamp
      && is_finite c.open_price
      && is_finite c.high
      && is_finite c.low
      && is_finite c.close
      && is_finite c.volume

  unfoldable pub is_negative : Candle N → Bool
  is_negative c =
      lt c.open_price (of_nat 0)
      || lt c.high (of_nat 0)
      || lt c.low (of_nat 0)
      || lt c.close (of_nat 0)
      || lt c.volume (of_nat 0)

  unfoldable pub is_inconsistent : Candle N → Bool
  is_inconsistent c =
      lt c.high c.low
      || lt c.high c.open_price
      || lt c.open_price c.low
      || lt c.high c.close
      || lt c.close c.low

  abbrev pub order_issue : Option (Candle N) → Candle N → Option CandleSeriesIssue
  order_issue none c = none
  order_issue (some p) c =
      if eq c.timestamp p.timestamp
      then some duplicate
      else if lt c.timestamp p.timestamp
      then some not_increasing
      else none

  -- One round of the first loop.
  unfoldable pub candle_issue : N → Option (Candle N) → Candle N → Option CandleSeriesIssue
  candle_issue now previous c =
      if not (is_all_finite c)
      then some not_finite
      else if is_negative c
      then some negative
      else if is_inconsistent c
      then some ohlc_inconsistent
      else first_issue (order_issue previous c)
          (if lt now c.timestamp then some from_the_future else none)

  unfoldable pub candle_issues : N → Option (Candle N) → List (Candle N) → Option CandleSeriesIssue
  candle_issues now previous [] = none
  candle_issues now previous (c ∷ rest) =
      first_issue (candle_issue now previous c) (candle_issues now (some c) rest)

  abbrev pub newest : Candle N → List (Candle N) → Candle N
  newest c [] = c
  newest c (d ∷ rest) = newest d rest

  abbrev pub freshness_issue : List (Candle N) → N → N → Option CandleSeriesIssue
  freshness_issue [] now interval_ms = none
  freshness_issue (c ∷ rest) now interval_ms =
      if lt (mul interval_ms (of_nat 2)) (sub now (newest c rest).timestamp)
      then some stale
      else none

  -- The second pass, made only where an interval is given.
  unfoldable pub interval_issue : List (Candle N) → N → Option N → Bool → Option CandleSeriesIssue
  interval_issue candles now none require_fresh = none
  interval_issue candles now (some interval_ms) require_fresh =
      first_issue (find_candle_continuity_issue candles interval_ms)
        (if require_fresh then freshness_issue candles now interval_ms else none)

  abbrev pub is_empty : List (Candle N) → Bool
  is_empty [] = true
  is_empty (c ∷ rest) = false

  unfoldable pub find_candle_series_issues :
      List (Candle N) → N → ℕ → Option N → Bool → Option CandleSeriesIssue
  find_candle_series_issues candles now max_count interval_ms require_fresh =
      if is_empty candles
      then some empty
      else if ltb max_count (length candles)
      then some too_many
      else first_issue (candle_issues now none candles)
          (interval_issue candles now interval_ms require_fresh)

  unfoldable pub assert_candle_series :
      List (Candle N) → N → String → ℕ → Option N → Option MarketDataError
  assert_candle_series candles now provider max_count interval_ms =
      fail_on (find_candle_series_issues candles now max_count interval_ms true) provider
        (length candles)

  pub assert_historical_candle_series :
      List (Candle N) → N → String → ℕ → N → Option MarketDataError
  assert_historical_candle_series candles now provider max_count interval_ms =
      fail_on (find_candle_series_issues candles now max_count (some interval_ms) false) provider
        (length candles)
