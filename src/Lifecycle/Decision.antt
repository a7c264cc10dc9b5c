-- ===== src/Lifecycle/Decision.antt =====
-- What `decideNext` decides, over every live signal, candidate and configuration.
use buy_not_buy_com.Common.{
  ℕ, ◌+◌, ◌*◌, ◌≤◌, ◌<◌, ◌≡◌, false, Option, some, none, arith, leb, if◌then◌else◌,
}
use buy_not_buy_com.Number.{Number}
use buy_not_buy_com.Lifecycle.{
  LiveSignal, SignalCandidate, LifecycleConfig, reversal, unchanged, expire, invalidate,
  same_direction, has_failed, decide_next,
}
use buy_not_buy_com.Lifecycle.Bars.{reaches_exact}

-- The bar at which a live signal has run out of time.
abbrev pub due : {N : Type 0} → LiveSignal N → ℕ → LifecycleConfig N → ℕ
due l interval_ms config = l.candle_timestamp + config.expiry_bars * interval_ms

module _ {N : Type 0} ⦃n : Number N⦄ where
  -- With an interval and an expiry set, a live signal whose panel is silent expires at the bar where
  -- its time has run out and at every later one, and is left alone at every earlier bar.
  pub silent_decision :
      (l : LiveSignal N) (interval_ms bar : ℕ) (config : LifecycleConfig N)
      → 0 < interval_ms
      → 0 < config.expiry_bars
      → (decide_next (some l) none interval_ms config (some bar)).decision
        ≡ (if leb (due l interval_ms config) bar then expire else unchanged)
  unfolding decide_next
  silent_decision l i bar config h k =
      ground (arith, reaches_exact l.candle_timestamp bar i config.expiry_bars h k)

  -- With an interval and an expiry set, a live signal whose time has run out ends at the current
  -- bar, whatever the panel says: it is invalidated if the price went against it far enough, and
  -- expires otherwise.
  pub overdue_ends :
      (l : LiveSignal N) (candidate : Option (SignalCandidate N)) (interval_ms bar : ℕ)
      (config : LifecycleConfig N)
      → 0 < interval_ms
      → 0 < config.expiry_bars
      → due l interval_ms config ≤ bar
      → (decide_next (some l) candidate interval_ms config (some bar)).decision
        ≡ (if has_failed l candidate config then invalidate else expire)
  unfolding decide_next
  overdue_ends l none i bar config h k late =
      ground (arith, reaches_exact l.candle_timestamp bar i config.expiry_bars h k)
  overdue_ends l (some c) i bar config h k late =
      ground (arith, reaches_exact l.candle_timestamp bar i config.expiry_bars h k)

  -- A turn of the panel is never blocked: with an interval and an expiry set, time left and no
  -- failure, a candidate in the other direction is a reversal into its direction, whatever its price
  -- and confidence.
  pub reversal_not_blocked :
      (l : LiveSignal N) (c : SignalCandidate N) (interval_ms bar : ℕ) (config : LifecycleConfig N)
      → 0 < interval_ms
      → 0 < config.expiry_bars
      → bar < due l interval_ms config
      → has_failed l (some c) config ≡ false
      → same_direction c.direction l.direction ≡ false
      → (decide_next (some l) (some c) interval_ms config (some bar)).decision
        ≡ reversal c.direction
  unfolding decide_next
  reversal_not_blocked l c i bar config h k early kept turned =
      ground (arith, reaches_exact l.candle_timestamp bar i config.expiry_bars h k)
