-- ===== src/Lifecycle/Publish/Trail.antt =====
-- The trail of transitions agrees with the row.
use buy_not_buy_com.Common.{◌≡◌, ◌≢◌, Option, some, none, List, [], ◌∷◌, arith}
use buy_not_buy_com.Number.{Number}
use buy_not_buy_com.Lifecycle.{LifecycleConfig, SignalStatus, SignalDirection, decide_next}
use buy_not_buy_com.Lifecycle.Publish.{
  Store, SignalTransitionRow, PublishSeries, thrown, publish_signal, publish_all, store_after,
  from_status, from_direction,
}

module _ {N : Type 0} where
  -- Each transition starts from the status and the direction in which the one before it ended, and
  -- the first from nothing.
  abbrev pub IsChain :
      Option SignalStatus → Option SignalDirection → List (SignalTransitionRow N) → Type 0
  IsChain status direction [] = (status ≡ none) × (direction ≡ none)
  IsChain status direction (t ∷ ts) =
      (status ≡ some t.to_status)
      × (direction ≡ some t.to_direction)
      × IsChain t.from_status t.from_direction ts

  abbrev pub IsTrail : Store N → Type 0
  IsTrail s = IsChain (from_status s.state) (from_direction s.state) s.transitions

module _ {N : Type 0} ⦃n : Number N⦄ (config : LifecycleConfig N) where
  -- The two `throw`s of the code are unreachable: every call returns.
  pub publish_signal_returns :
      (series : PublishSeries N) (s : Store N) → publish_signal config series s ≢ thrown
  unfolding publish_signal decide_next
  publish_signal_returns series s = ground arith

  store_after-IsTrail :
      (series : PublishSeries N) (s : Store N) → IsTrail s → IsTrail (store_after config series s)
  unfolding publish_signal decide_next
  store_after-IsTrail series s h = ground arith

  publish_all-IsTrail_from :
      (all : List (PublishSeries N)) (s : Store N) → IsTrail s → IsTrail (publish_all config all s)
  unfolding publish_all
  publish_all-IsTrail_from [] s h = h
  publish_all-IsTrail_from (x ∷ xs) s h =
      publish_all-IsTrail_from xs (store_after config x s) (store_after-IsTrail x s h)

  -- After any calls on a series with nothing stored, the transitions are one unbroken chain from
  -- nothing to the status and the direction of the stored row.
  pub publish_all-IsTrail :
      (all : List (PublishSeries N))
      → IsTrail (publish_all config all (record { state = none; transitions = [] }))
  publish_all-IsTrail all =
      publish_all-IsTrail_from all (record { state = none; transitions = [] }) (ground arith)
