-- ===== src/CandleClock.antt =====
-- src/backend/history/candle-clock.ts: when a bar is finished. Times are whole milliseconds since the
-- epoch, and the interval is positive.
use buy_not_buy_com.Common.{
  ℕ, ◌+◌, ◌-◌, ◌/◌, ◌%◌, min, max, Bool, true, false, Option, some, none, leb, ◌==◌, if◌then◌else◌,
}
pub mod Closing
mod Tests

abbrev pub candle_open_time : ℕ → ℕ → ℕ
candle_open_time interval_ms timestamp = timestamp

pub candle_close_time : ℕ → ℕ → ℕ
candle_close_time interval_ms timestamp = candle_open_time interval_ms timestamp + interval_ms

pub is_candle_closed : ℕ → ℕ → ℕ → Bool
unfolding candle_close_time
is_candle_closed interval_ms timestamp now = leb (candle_close_time interval_ms timestamp) now

pub elapsed_in_bar : ℕ → ℕ → ℕ
elapsed_in_bar interval_ms now = (now % interval_ms + interval_ms) % interval_ms

pub forming_candle_time : ℕ → ℕ → Option ℕ
forming_candle_time interval_ms now =
    let elapsed = elapsed_in_bar interval_ms now in
    if elapsed == 0 then none else some (now - elapsed)

pub last_closed_candle_time : ℕ → ℕ → ℕ
last_closed_candle_time interval_ms now = now - elapsed_in_bar interval_ms now - interval_ms

pub ms_until_next_close : ℕ → ℕ → ℕ
ms_until_next_close interval_ms now = interval_ms - now % interval_ms

pub ingestion_period_ms : ℕ → ℕ → ℕ
ingestion_period_ms interval_ms cap_ms =
    let fraction = max 1 (interval_ms / 8) in max 1000 (min interval_ms (min fraction cap_ms))
