-- ===== src/Lifecycle/Tests.antt =====
-- Runs of the lifecycle on concrete signals, with integers for prices.
use buy_not_buy_com.Common.{
  ℕ, ◌*◌, ◌≡◌, ◌≢◌, refl, true, Option, some, none, List, [], ◌∷◌, arith, length,
}
use buy_not_buy_com.Number.Integers.{Integer, int, integer_number}
use buy_not_buy_com.Lifecycle.{
  LiveSignal, SignalCandidate, LifecycleConfig, SignalDecision, SignalDirection, SignalStatus,
  decide_next, percent_move,
}
use buy_not_buy_com.Lifecycle.Decision.{overdue_ends}
use buy_not_buy_com.Lifecycle.Publish.{Store, PublishSeries, thrown, publish_signal, publish_all}
use buy_not_buy_com.Lifecycle.Publish.Trail.{IsTrail, publish_signal_returns, publish_all-IsTrail}
use buy_not_buy_com.Lifecycle.Publish.Reopening.{is_ended, entry_bar, ended_never_reopens}

abbrev hour : ℕ
hour = 3_600_000

abbrev config : LifecycleConfig Integer
config = record {
  republish_price_move_percent = int 1;
  republish_confidence_delta = int 5;
  expiry_bars = 24;
  cooldown_bars = 3;
  invalidation_percent = int 2;
}

abbrev live : LiveSignal Integer
live = record {
  direction = SignalDirection.long;
  status = SignalStatus.generated;
  price = int 1000;
  confidence = int 60;
  candle_timestamp = hour;
}

abbrev fallen : SignalCandidate Integer
fallen = record {
  direction = SignalDirection.short;
  confidence = int 70;
  price = int 0;
  candle_timestamp = 2 * hour;
}

abbrev turned : SignalCandidate Integer
turned = record fallen { price = int 995 }

overdue_ends_example :
    (decide_next (some live) (some fallen) hour config (some (30 * hour))).decision
    ≡ SignalDecision.invalidate
unfolding percent_move
overdue_ends_example =
    overdue_ends live (some fallen) hour (30 * hour) config (omega arith) (omega arith)
      (omega arith)

abbrev at : ℕ → Option (SignalCandidate Integer) → PublishSeries Integer
at bar candidate = record {
  candidate = candidate;
  interval_ms = hour;
  candle_timestamp = bar;
  snapshot_id = none;
}

abbrev empty : Store Integer
empty = record { state = none; transitions = [] }

abbrev day : List (PublishSeries Integer)
day = at (2 * hour) (some turned) ∷ at (3 * hour) none ∷ at (27 * hour) none ∷ []

publish_signal_returns_example : publish_signal config (at hour (some turned)) empty ≢ thrown
publish_signal_returns_example = publish_signal_returns config (at hour (some turned)) empty

publish_all-IsTrail_example : IsTrail (publish_all config day empty)
publish_all-IsTrail_example = publish_all-IsTrail config day

-- The signal opened at the second hour expired; a fresh candidate two days later opens nothing.
abbrev later : List (PublishSeries Integer)
later = at (50 * hour) (some (record turned { candle_timestamp = 50 * hour })) ∷ []

ended_never_reopens_example :
    let t = publish_all config later (publish_all config day empty) in
    (is_ended t.state ≡ true) × (entry_bar t.state ≡ some (2 * hour)) × (length t.transitions ≡ 3)
unfolding publish_all publish_signal decide_next
ended_never_reopens_example =
    ended_never_reopens config (2 * hour) later (publish_all config day empty) (omega arith) refl
      refl (omega arith)
