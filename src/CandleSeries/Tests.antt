-- ===== src/CandleSeries/Tests.antt =====
-- A series of three candles, with integers for numbers.
use buy_not_buy_com.Common.{
  ℕ, ◌≤◌, ◌<◌, ◌≡◌, ◌↔◌, refl, true, none, some, List, [], ◌∷◌, All, length,
}
use buy_not_buy_com.Number.Integers.{Integer, int, integer_number, Integer-IsOrdered}
use buy_not_buy_com.CandleSeries.{
  Candle, find_candle_series_issues, has_gap, candle_issues, candle_issue, is_all_finite,
  is_negative, is_inconsistent, interval_issue, find_candle_continuity_issue,
}
use buy_not_buy_com.CandleSeries.Bar.{IsPossible}
use buy_not_buy_com.CandleSeries.Order.{IsIncreasing, find_candle_series_issues_exact}

abbrev bar : ℕ → Candle Integer
bar t = record {
  timestamp = int t;
  open_price = int 100;
  high = int 110;
  low = int 90;
  close = int 105;
  volume = int 7;
}

abbrev series : List (Candle Integer)
series = bar 1000 ∷ bar 2000 ∷ bar 4000 ∷ []

gap_is_found : find_candle_series_issues series (int 4500) 500 (some (int 1000)) true ≡ some has_gap
unfolding find_candle_series_issues candle_issues candle_issue is_all_finite is_negative
    is_inconsistent interval_issue find_candle_continuity_issue
gap_is_found = refl

find_candle_series_issues_exact_example :
    (find_candle_series_issues series (int 4500) 500 none true ≡ none) ↔ (
      (0 < length series)
      × (length series ≤ 500)
      × All (IsPossible (int 4500)) series
      × IsIncreasing series)
find_candle_series_issues_exact_example =
    find_candle_series_issues_exact Integer-IsOrdered series (int 4500) 500 true refl
