-- ===== src/Lifecycle.antt =====
-- src/backend/signals/lifecycle.ts: the pure decision about the live signal of a series. Prices,
-- confidences and percentages are numbers of the runtime (Number.antt); bars are labelled by whole
-- milliseconds, so their differences and the floor of a quotient are exact. `open` is `opening` here.
use Prim.Native.String.{String, ◌++◌ as append_text}
use buy_not_buy_com.Common.{
  ℕ, ◌+◌, ◌-◌, ◌*◌, ◌/◌, Bool, true, false, not, ◌&&◌, ◌||◌, Option, some, none, ltb, leb, ◌==◌,
  if◌then◌else◌,
}
use buy_not_buy_com.Common.Int.{ℤ, pos, negsuc}
use buy_not_buy_com.Number.{Number}
pub mod Bars
pub mod Decision
pub mod Publish
mod Tests

pub data SignalDirection : Type 0 where
  long short : SignalDirection

pub data SignalStatus : Type 0 where
  generated active updated invalidated expired closed : SignalStatus

pub record LiveSignal (N : Type 0) : Type 0 where
  pub direction : SignalDirection
  pub status : SignalStatus
  pub price : N
  pub confidence : N
  pub candle_timestamp : ℕ

pub record SignalCandidate (N : Type 0) : Type 0 where
  pub direction : SignalDirection
  pub confidence : N
  pub price : N
  pub candle_timestamp : ℕ

pub record LifecycleConfig (N : Type 0) : Type 0 where
  pub republish_price_move_percent : N
  pub republish_confidence_delta : N
  pub expiry_bars : ℕ
  pub cooldown_bars : ℕ
  pub invalidation_percent : N

pub data SignalDecision : Type 0 where
  opening : SignalDirection → SignalDecision
  reversal : SignalDirection → SignalDecision
  update unchanged expire invalidate : SignalDecision

pub record DecidedTransition : Type 0 where
  pub decision : SignalDecision
  pub to_status : Option SignalStatus
  pub recorded : Bool
  pub reason : String

abbrev pub same_direction : SignalDirection → SignalDirection → Bool
same_direction long long = true
same_direction short short = true
same_direction _ _ = false

abbrev pub direction_text : SignalDirection → String
direction_text long = "LONG"
direction_text short = "SHORT"

pub reason : SignalDecision → String
reason (opening d) = append_text "Открыт " (direction_text d)
reason (reversal d) = append_text "Разворот в " (direction_text d)
reason update = "Обновлён: цена или уверенность изменились достаточно"
reason unchanged = "Без изменений"
reason expire = "Истёк срок сигнала"
reason invalidate = "Признан недействительным: цена пошла против"

-- `Math.floor((later - earlier) / intervalMs)`; `none` is NaN.
unfoldable pub bars_between : ℕ → ℕ → ℕ → Option ℤ
bars_between earlier later interval_ms =
    if interval_ms == 0
    then none
    else if leb earlier later
    then some (pos ((later - earlier) / interval_ms))
    else some (negsuc ((earlier - later - 1) / interval_ms))

-- `Number.isFinite(bars) && bars >= limit`.
abbrev pub reaches : Option ℤ → ℕ → Bool
reaches (some (pos n)) limit = leb limit n
reaches (some (negsuc n)) limit = false
reaches none limit = false

-- `Number.isFinite(elapsed) && elapsed < limit`.
abbrev pub below : Option ℤ → ℕ → Bool
below (some (pos n)) limit = ltb n limit
below (some (negsuc n)) limit = true
below none limit = false

pub cooldown_blocks : ℕ → ℕ → ℕ → ℕ → Bool
unfolding bars_between
cooldown_blocks last_closed now interval_ms bars =
    if leb bars 0 then false else below (bars_between last_closed now interval_ms) bars

abbrev pub record_as : SignalDecision → SignalStatus → DecidedTransition
record_as d s = record { decision = d; to_status = some s; recorded = true; reason = reason d }

abbrev pub leave : DecidedTransition
leave = record {
  decision = unchanged;
  to_status = none;
  recorded = false;
  reason = "Без изменений";
}

module _ {N : Type 0} ⦃n : Number N⦄ where
  open n use {of_nat, sub, mul, div, abs, lt, le}

  unfoldable pub percent_move : N → N → N
  percent_move from to = mul (div (abs (sub to from)) from) (of_nat 100)

  abbrev pub bar_of : Option ℕ → Option (SignalCandidate N) → LiveSignal N → ℕ
  bar_of (some t) c l = t
  bar_of none (some c) l = c.candle_timestamp
  bar_of none none l = l.candle_timestamp

  abbrev pub has_failed : LiveSignal N → Option (SignalCandidate N) → LifecycleConfig N → Bool
  has_failed l none config = false
  has_failed l (some c) config =
      le config.invalidation_percent (percent_move l.price c.price)
      && (if same_direction l.direction long then lt c.price l.price else lt l.price c.price)

  -- The part of `decideNext` behind the two checks of the live signal's own end.
  unfoldable pub decide_candidate :
      LiveSignal N → Option (SignalCandidate N) → LifecycleConfig N → DecidedTransition
  unfolding percent_move
  decide_candidate l none config = leave
  decide_candidate l (some c) config =
      if not (same_direction c.direction l.direction)
      then record_as (reversal c.direction) generated
      else if le config.republish_price_move_percent (percent_move l.price c.price)
          || le config.republish_confidence_delta (abs (sub c.confidence l.confidence))
      then record_as update updated
      else leave

  unfoldable pub decide_next :
      Option (LiveSignal N)
      → Option (SignalCandidate N)
      → ℕ
      → LifecycleConfig N
      → Option ℕ
      → DecidedTransition
  unfolding decide_candidate bars_between percent_move
  decide_next none none interval_ms config current = leave
  decide_next none (some c) interval_ms config current = record_as (opening c.direction) generated
  decide_next (some l) candidate interval_ms config current =
      let bars = bars_between l.candle_timestamp (bar_of current candidate l) interval_ms in
      if has_failed l candidate config
      then record_as invalidate invalidated
      else if reaches bars config.expiry_bars
      then record_as expire expired
      else decide_candidate l candidate config
