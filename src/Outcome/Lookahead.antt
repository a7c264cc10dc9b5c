-- ===== src/Outcome/Lookahead.antt =====
-- What a measurement may read.
use buy_not_buy_com.Common.{◌≡◌, refl, false, List, [], ◌∷◌, ◌++◌, All}
use buy_not_buy_com.Number.{Number}
use buy_not_buy_com.CandleSeries.{Candle}
use buy_not_buy_com.Outcome.{OutcomeConfig, OutcomeInput, forward_of, measure_outcome}

module _ {N : Type 0} ⦃n : Number N⦄ where
  open n use {lt}

  -- The candle is not after the entry.
  abbrev pub IsPast : N → Candle N → Type 0
  IsPast entry c = lt entry c.timestamp ≡ false

  forward_of-past :
      (entry : N) (past candles : List (Candle N))
      → All (IsPast entry) past
      → forward_of entry (past ++ candles) ≡ forward_of entry candles
  forward_of-past entry [] candles h = refl
  forward_of-past entry (c ∷ past) candles (h, hs) = rw h (forward_of-past entry past candles hs)

  -- The bar of the signal and all before it have no part in the outcome: without them every horizon
  -- is measured the same.
  pub measure_outcome_past :
      (config : OutcomeConfig N) (input : OutcomeInput N) (past candles : List (Candle N))
      → All (IsPast input.entry_timestamp) past
      → measure_outcome config (record input { candles = past ++ candles })
        ≡ measure_outcome config (record input { candles = candles })
  unfolding measure_outcome
  measure_outcome_past config input past candles h =
      rw (forward_of-past input.entry_timestamp past candles h)
