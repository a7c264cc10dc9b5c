-- ===== src/CandleClock/Tests.antt =====
-- The clock at concrete times, with an hour's interval.
use buy_not_buy_com.Common.{ℕ, ◌*◌, ◌≡◌, refl}
use buy_not_buy_com.CandleClock.{last_closed_candle_time, elapsed_in_bar, ingestion_period_ms}

abbrev hour : ℕ
hour = 3_600_000

last_closed_at_boundary : last_closed_candle_time hour (5 * hour) ≡ 4 * hour
unfolding last_closed_candle_time elapsed_in_bar
last_closed_at_boundary = refl

period_is_capped : ingestion_period_ms hour 60_000 ≡ 60_000
unfolding ingestion_period_ms
period_is_capped = refl
