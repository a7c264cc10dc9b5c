-- ===== src/Lifecycle/Publish.antt =====
-- src/backend/signals/publish.ts, over the store of src/backend/signals/lifecycle.repository.ts for
-- one series: the row of `signal_state` with the series' key, which `write` inserts or overwrites, and
-- its rows of `signal_transition`, newest first. `getLive` selects the row by its key alone.
use Prim.Native.String.{String}
use buy_not_buy_com.Common.{
  ℕ, ◌≡◌, Bool, true, false, not, ◌||◌, Option, some, none, List, [], ◌∷◌, if◌then◌else◌,
}
use buy_not_buy_com.Number.{Number}
use buy_not_buy_com.Lifecycle.{
  SignalDirection, SignalStatus, LiveSignal, SignalCandidate, LifecycleConfig, SignalDecision,
  DecidedTransition, expired, invalidated, decide_next, reason,
}
pub mod Trail
pub mod Reopening

pub record SignalStateRow (N : Type 0) : Type 0 where
  pub direction : SignalDirection
  pub status : SignalStatus
  pub snapshot_id : Option String
  pub price : N
  pub confidence : N
  pub published_at : ℕ
  pub candle_timestamp : ℕ

pub record SignalTransitionRow (N : Type 0) : Type 0 where
  pub from_status : Option SignalStatus
  pub to_status : SignalStatus
  pub from_direction : Option SignalDirection
  pub to_direction : SignalDirection
  pub reason : String
  pub candle_timestamp : ℕ
  pub price : N
  pub created_at : ℕ

pub record Store (N : Type 0) : Type 0 where
  pub state : Option (SignalStateRow N)
  pub transitions : List (SignalTransitionRow N)

pub record PublishSeries (N : Type 0) : Type 0 where
  pub candidate : Option (SignalCandidate N)
  pub interval_ms : ℕ
  pub candle_timestamp : ℕ
  pub snapshot_id : Option String

pub record PublishResult (N : Type 0) : Type 0 where
  pub written : Bool
  pub decision : SignalDecision
  pub to_status : Option SignalStatus
  pub reason : String
  pub live : Option (SignalStateRow N)

-- A call returns with the store that it leaves, or throws.
pub data Published (N : Type 0) : Type 0 where
  returned : Store N → PublishResult N → Published N
  thrown : Published N

abbrev pub is_closing : SignalStatus → Bool
is_closing expired = true
is_closing invalidated = true
is_closing _ = false

module _ {N : Type 0} where
  abbrev pub get_live : Store N → Option (SignalStateRow N)
  get_live s = s.state

  abbrev pub from_status : Option (SignalStateRow N) → Option SignalStatus
  from_status none = none
  from_status (some r) = some r.status

  abbrev pub from_direction : Option (SignalStateRow N) → Option SignalDirection
  from_direction none = none
  from_direction (some r) = some r.direction

  -- The upsert and the insert of one transaction.
  pub write : Store N → Option (SignalStateRow N) → SignalStateRow N → String → ℕ → Store N
  write s previous row text created = record {
    state = some row;
    transitions =
        record {
          from_status = from_status previous;
          to_status = row.status;
          from_direction = from_direction previous;
          to_direction = row.direction;
          reason = text;
          candle_timestamp = row.candle_timestamp;
          price = row.price;
          created_at = created;
        }
        ∷ s.transitions;
  }

  abbrev pub to_live_signal : Option (SignalStateRow N) → Option (LiveSignal N)
  to_live_signal none = none
  to_live_signal (some r) = some (record {
    direction = r.direction;
    status = r.status;
    price = r.price;
    confidence = r.confidence;
    candle_timestamp = r.candle_timestamp;
  })

  -- `previous?.snapshotId ?? series.snapshotId ?? null`.
  abbrev pub kept_snapshot : Option (SignalStateRow N) → Option String → Option String
  kept_snapshot none given = given
  kept_snapshot (some r) given = elim r.snapshot_id [ none ↦ given | some id ↦ some id ]

  abbrev pub written_result : DecidedTransition → SignalStatus → Store N → Published N
  written_result d status s = returned s (record {
    written = true;
    decision = d.decision;
    to_status = some status;
    reason = d.reason;
    live = s.state;
  })

  pub publish_closing :
      Store N → Option (SignalStateRow N) → DecidedTransition → SignalStatus → ℕ → Published N
  unfolding write
  publish_closing s none d status bar = thrown
  publish_closing s (some r) d status bar = written_result d status (
      write s (some r) (record r { status = status; published_at = r.candle_timestamp }) d.reason
        bar)

  pub publish_candidate :
      Store N
      → Option (SignalStateRow N)
      → DecidedTransition
      → SignalStatus
      → PublishSeries N
      → Option (SignalCandidate N)
      → Published N
  unfolding write
  publish_candidate s previous d status series none = thrown
  publish_candidate s previous d status series (some c) = written_result d status (
      write s previous
        (record {
          direction = c.direction;
          status = status;
          snapshot_id = kept_snapshot previous series.snapshot_id;
          price = c.price;
          confidence = c.confidence;
          published_at = c.candle_timestamp;
          candle_timestamp = c.candle_timestamp;
        })
        d.reason c.candle_timestamp)

  pub publish_decided :
      Store N
      → Option (SignalStateRow N)
      → PublishSeries N
      → DecidedTransition
      → Bool
      → Option SignalStatus
      → Published N
  unfolding publish_closing publish_candidate
  publish_decided s previous series d true (some status) =
      if is_closing status
      then publish_closing s previous d status series.candle_timestamp
      else publish_candidate s previous d status series series.candidate
  publish_decided s previous series d _ _ = returned s (record {
    written = false;
    decision = d.decision;
    to_status = d.to_status;
    reason = d.reason;
    live = previous;
  })

module _ {N : Type 0} ⦃n : Number N⦄ (config : LifecycleConfig N) where
  unfoldable pub publish_signal : PublishSeries N → Store N → Published N
  unfolding publish_decided
  publish_signal series s =
      let previous = get_live s in
      let decided =
        decide_next (to_live_signal previous) series.candidate series.interval_ms config
          (some series.candle_timestamp) in
      publish_decided s previous series decided decided.recorded decided.to_status

  -- The store after the call; a call that throws leaves it as it was.
  abbrev pub store_after : PublishSeries N → Store N → Store N
  store_after series s = elim (publish_signal series s) [ returned s' r ↦ s' | thrown ↦ s ]

  unfoldable pub publish_all : List (PublishSeries N) → Store N → Store N
  publish_all [] s = s
  publish_all (x ∷ xs) s = publish_all xs (store_after x s)
