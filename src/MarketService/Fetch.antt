-- ===== src/MarketService/Fetch.antt =====
-- Which answers of the chain become a snapshot.
use text.Mathlib.TextEquality.{eq_iff}
use buy_not_buy_com.Common.{ℕ, ◌≡◌, inl, inr, some, none, arith, Option-cases}
use buy_not_buy_com.Number.{Number}
use buy_not_buy_com.CandleSeries.{Candle, assert_candle_series}
use buy_not_buy_com.MarketService.{
  MarketRequest, MarketConfig, MarketData, Attributed, fetched, last_candle, fetch_market_data,
}

module _ {N : Type 0} ⦃n : Number N⦄ (cfg : MarketConfig N) where
  open n use {of_nat, add}

  -- What a snapshot says beside its candles and its venue, from its request and its last candle.
  abbrev pub IsFrom : MarketRequest → Attributed N → Candle N → MarketData N → Type 0
  IsFrom r a c d =
      (d.candles ≡ a.candles)
      × (d.provider ≡ a.venue)
      × (d.symbol ≡ r.instrument)
      × (d.interval ≡ r.interval)
      × (d.price.symbol ≡ r.instrument)
      × (d.price.price ≡ c.close)
      × (d.timestamp ≡ add c.timestamp (cfg.interval_ms r.interval))

  -- Whatever the chain answers, a snapshot is made of it only if it names the symbol and the interval
  -- that were asked for and its candles pass the check of a live series at the interval's own length;
  -- and then the snapshot has these candles and this venue, its price is the close of the last candle,
  -- and its time is when that candle closed.
  pub fetch_market_data-fetched :
      (r : MarketRequest) (now : ℕ) (a : Attributed N) (d : MarketData N)
      → fetch_market_data cfg r now (some a) ≡ fetched d
      → (a.symbol ≡ r.instrument)
        × (a.interval ≡ r.interval)
        × (assert_candle_series a.candles
              (of_nat now)
              a.venue
              cfg.max_candle_limit
              (some (cfg.interval_ms r.interval))
            ≡ none)
        × ((c : Candle N) × (last_candle a.candles ≡ some c) × IsFrom r a c d)
  unfolding fetch_market_data
  fetch_market_data-fetched r now a d got = elim (Option-cases (last_candle a.candles)) [
    | inl empty ↦ absurd (ground (arith, got, empty))
    | inr (c, found) ↦ (
      ground (arith, got, eq_iff a.symbol r.instrument),
      ground (arith, got, eq_iff a.interval r.interval),
      ground (arith, got),
      (c, found, ground (arith, got, found)),
    )
  ]
