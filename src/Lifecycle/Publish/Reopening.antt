-- ===== src/Lifecycle/Publish/Reopening.antt =====
-- What becomes of a series whose signal has ended.
use buy_not_buy_com.Common.{
  ℕ, suc, ◌+◌, ◌*◌, ◌≤◌, ◌<◌, ◌≡◌, Bool, true, false, Option, some, none, List, [], ◌∷◌, arith,
  length, All,
}
use buy_not_buy_com.Number.{Number}
use buy_not_buy_com.Lifecycle.{LifecycleConfig, decide_next}
use buy_not_buy_com.Lifecycle.Bars.{reaches_exact}
use buy_not_buy_com.Lifecycle.Publish.{
  Store, SignalStateRow, PublishSeries, publish_signal, publish_all, store_after, is_closing,
}

abbrev pub is_ended : {N : Type 0} → Option (SignalStateRow N) → Bool
is_ended none = false
is_ended (some r) = is_closing r.status

abbrev pub entry_bar : {N : Type 0} → Option (SignalStateRow N) → Option ℕ
entry_bar none = none
entry_bar (some r) = some r.candle_timestamp

module _ {N : Type 0} ⦃n : Number N⦄ (config : LifecycleConfig N) where
  -- The call looks at a bar at which a signal of the bar `entry` has run out of time.
  abbrev pub IsLate : ℕ → PublishSeries N → Type 0
  IsLate entry x =
      (0 < x.interval_ms) × (entry + config.expiry_bars * x.interval_ms ≤ x.candle_timestamp)

  late_step :
      (entry : ℕ) (x : PublishSeries N) (s : Store N)
      → 0 < config.expiry_bars
      → entry_bar s.state ≡ some entry
      → IsLate entry x
      → let t = store_after config x s in
        (is_ended t.state ≡ true)
        × (entry_bar t.state ≡ some entry)
        × (length t.transitions ≡ suc (length s.transitions))
  unfolding publish_signal decide_next
  late_step entry x s limit e (h, late) =
      ground
        (arith, reaches_exact entry x.candle_timestamp x.interval_ms config.expiry_bars h limit)

  -- A series whose signal ran out of time never opens another: once the stored row has ended, every
  -- call at a bar where the time of that row has run out, whatever its candidate, ends the same
  -- signal again, so that the row still has an ending status and the old entry bar, and one more
  -- transition is written by each call.
  pub ended_never_reopens :
      (entry : ℕ) (all : List (PublishSeries N)) (s : Store N)
      → 0 < config.expiry_bars
      → is_ended s.state ≡ true
      → entry_bar s.state ≡ some entry
      → All (IsLate entry) all
      → let t = publish_all config all s in
        (is_ended t.state ≡ true)
        × (entry_bar t.state ≡ some entry)
        × (length t.transitions ≡ length s.transitions + length all)
  unfolding publish_all
  ended_never_reopens entry [] s limit ended e h = (ended, e, omega arith)
  ended_never_reopens entry (x ∷ xs) s limit ended e (h, hs) =
      let (ended', e', count) = late_step entry x s limit e h in
      let (last, same, total) =
        ended_never_reopens entry xs (store_after config x s) limit ended' e' hs in
      (last, same, omega arith)
