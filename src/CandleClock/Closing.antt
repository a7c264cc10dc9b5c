-- ===== src/CandleClock/Closing.antt =====
-- The clock's answers, against the bars that open at the multiples of the interval.
use buy_not_buy_com.Common.{
  ℕ, ◌+◌, ◌-◌, ◌*◌, ◌/◌, ◌%◌, ◌≤◌, ◌<◌, ◌≡◌, true, false, some, none, leb, arith, ◌==◌,
  if◌then◌else◌,
}
use buy_not_buy_com.CandleClock.{
  candle_close_time, is_candle_closed, elapsed_in_bar, forming_candle_time, last_closed_candle_time,
  ms_until_next_close,
}

elapsed_in_bar_lem : (i now : ℕ) → 0 < i → elapsed_in_bar i now ≡ now % i
unfolding elapsed_in_bar
elapsed_in_bar_lem i now h = grind arith

since_bar : (i now : ℕ) → 0 < i → (now / i * i + now % i ≡ now) × (now % i < i)
since_bar i now h = grind arith

closed-at : (i k now : ℕ) → 0 < i → leb (k * i + i) now ≡ leb (k + 1) (now / i)
closed-at i k now h = grind arith

mul_mono : (i a b : ℕ) → a ≤ b → a * i ≤ b * i
mul_mono i a b h = grind arith

scaled : (i k q : ℕ) → 0 < i → 0 < q → leb (k * i) (q * i - i) ≡ leb (k + 1) q
scaled i k q h p = ground (arith, mul_mono i (k + 1) q, mul_mono i q k, mul_mono i 1 q)

one_bar : (i now : ℕ) → 0 < i → i ≤ now → 0 < now / i
one_bar i now h k = grind arith

-- Once a whole interval has passed, the bars that are closed are exactly those that open no later
-- than the one that the clock names as the last closed.
pub last_closed_candle_time_exact :
    (interval_ms k now : ℕ)
    → 0 < interval_ms
    → interval_ms ≤ now
    → is_candle_closed interval_ms (k * interval_ms) now
      ≡ leb (k * interval_ms) (last_closed_candle_time interval_ms now)
unfolding is_candle_closed last_closed_candle_time
last_closed_candle_time_exact i k now h late =
    let whole = since_bar i now h in
    rw (elapsed_in_bar_lem i now h, candle_close_time)
      (ground (arith, closed-at i k now h, scaled i k (now / i) h, whole, one_bar i now h late))

-- With a positive interval, a bar is forming exactly when the time is not on a boundary; it opened
-- at the last boundary.
pub forming_candle_time_exact :
    (interval_ms now : ℕ)
    → 0 < interval_ms
    → forming_candle_time interval_ms now
      ≡ (if now % interval_ms == 0 then none else some (now / interval_ms * interval_ms))
unfolding forming_candle_time
forming_candle_time_exact i now h = ground (arith, elapsed_in_bar_lem i now h, since_bar i now h)

-- With a positive interval, the bar that contains the time closes after exactly the wait that is
-- given, which is positive and at most an interval: a millisecond earlier it is still open.
pub ms_until_next_close_exact :
    (interval_ms now : ℕ)
    → 0 < interval_ms
    → let wait = ms_until_next_close interval_ms now in
      let bar = now / interval_ms * interval_ms in
      (0 < wait)
      × (wait ≤ interval_ms)
      × (is_candle_closed interval_ms bar (now + wait) ≡ true)
      × (is_candle_closed interval_ms bar (now + wait - 1) ≡ false)
unfolding ms_until_next_close is_candle_closed
ms_until_next_close_exact i now h = ground (arith, since_bar i now h)
