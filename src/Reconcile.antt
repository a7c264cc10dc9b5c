-- ===== src/Reconcile.antt =====
-- Measurements of closed signals: src/backend/outcomes/reconcile.ts, and the table signal_outcome of
-- src/backend/outcomes/outcome.repository.ts for one series. A transaction, and each statement outside of
-- one, is one step on the rows. Ids and the columns of the series are left out.
use Prim.Native.String.{String}
use text.Mathlib.Text.{◌==◌ as str_eq}
use buy_not_buy_com.Common.{
  ℕ, zero, suc, ◌+◌, Bool, true, false, not, ◌&&◌, ◌||◌, Option, some, none, List, [], ◌∷◌, ◌++◌,
  ltb, leb, ◌==◌, length, filter, take, map, if◌then◌else◌,
}
use buy_not_buy_com.Number.{Number}
use buy_not_buy_com.CandleSeries.{Candle}
use buy_not_buy_com.Outcome.{
  Direction, OutcomeVerdict, unknown, expired, ClosedBy, by_invalidation, by_expiry, by_reversal,
  HorizonOutcome, SignalOutcome, OutcomeConfig, OutcomeInput, last_of, forward_of, measure_outcome,
}
pub mod Rows
pub mod Passes
mod Tests

pub record OutcomeRow (N : Type 0) : Type 0 where
  pub state_id : Option ℕ
  pub direction : Direction
  pub verdict : OutcomeVerdict
  pub horizon_bars : ℕ
  pub entry_timestamp : N
  pub entry_price : N
  pub exit_timestamp : Option N
  pub exit_price : Option N
  pub return_fraction : Option N
  pub max_favourable : Option N
  pub max_adverse : Option N
  pub closed_by : Option ClosedBy
  pub regime : Option String
  pub data_quality : Option N
  pub strategy_version_id : Option ℕ
  pub created_at : ℕ
  pub updated_at : ℕ

pub record SettleInput (N : Type 0) : Type 0 where
  pub symbol : String
  pub state_id : Option ℕ
  pub direction : Direction
  pub entry_timestamp : N
  pub entry_price : N
  pub candles : List (Candle N)
  pub closed_by : Option ClosedBy
  pub regime : Option String
  pub data_quality : Option N
  pub strategy_version_id : Option ℕ
  pub now : ℕ

-- A closed signal of the lifecycle's table.
pub record ClosedSignal (N : Type 0) : Type 0 where
  pub id : ℕ
  pub status : String
  pub direction : Direction
  pub candle_timestamp : N
  pub price : N
  pub snapshot_id : Option String

pub record SettleSeries (N : Type 0) : Type 0 where
  pub symbol : String
  pub candles : List (Candle N)
  pub now : ℕ
  pub strategy_version_id : Option ℕ
  pub regime : Option String
  pub data_quality : Option N

pub record SettleReport : Type 0 where
  pub examined : ℕ
  pub rows : ℕ
  pub still_waiting : ℕ

pub closed_by_for : String → ClosedBy
closed_by_for status =
    if str_eq status "INVALIDATED"
    then by_invalidation
    else if str_eq status "EXPIRED"
    then by_expiry
    else by_reversal

-- `verdict IN ('unknown', 'expired')`.
abbrev pub is_waiting : OutcomeVerdict → Bool
is_waiting unknown = true
is_waiting expired = true
is_waiting _ = false

-- The unique key on the signal and the horizon, to which a row without a signal never conflicts.
abbrev pub is_for : Option ℕ → ℕ → Option ℕ → ℕ → Bool
is_for (some id) bars (some id') bars' = id == id' && bars == bars'
is_for _ bars _ bars' = false

abbrev pub last_or : Option ℕ → Option ℕ → Option ℕ
last_or (some v) other = some v
last_or none other = other

-- `resolveVersion` of a signal's snapshot, where both are there.
abbrev pub resolve_with : Option (String → Option ℕ) → Option String → Option ℕ
resolve_with (some resolve) (some snapshot) = resolve snapshot
resolve_with _ _ = none

abbrev pub mem_of : ℕ → List ℕ → Bool
mem_of k [] = false
mem_of k (j ∷ js) = j == k || mem_of k js

-- `COUNT(DISTINCT …)`, of the values that are not NULL.
abbrev pub count_distinct : List ℕ → List (Option ℕ) → ℕ
count_distinct seen [] = 0
count_distinct seen (none ∷ os) = count_distinct seen os
count_distinct seen (some k ∷ os) =
    let rest = count_distinct (k ∷ seen) os in
    let same = count_distinct seen os in if mem_of k seen then same else suc rest

abbrev is_absent_or_ended : (ℕ → Bool) → Option ℕ → Bool
is_absent_or_ended is_live none = true
is_absent_or_ended is_live (some id) = not (is_live id)

module _ {N : Type 0} where
  -- DO UPDATE.
  abbrev pub merge : OutcomeRow N → OutcomeRow N → OutcomeRow N
  merge stored new = record stored {
    verdict = new.verdict;
    entry_price = new.entry_price;
    exit_timestamp = new.exit_timestamp;
    exit_price = new.exit_price;
    return_fraction = new.return_fraction;
    max_favourable = new.max_favourable;
    max_adverse = new.max_adverse;
    closed_by = new.closed_by;
    updated_at = new.updated_at;
  }

  -- INSERT … ON CONFLICT … WHERE … RETURNING.
  unfoldable pub upsert :
      OutcomeRow N → List (OutcomeRow N) → List (OutcomeRow N) × Option (OutcomeRow N)
  upsert new [] = (new ∷ [], some new)
  upsert new (r ∷ rs) =
      let (rest, returned) = upsert new rs in
      if is_for r.state_id r.horizon_bars new.state_id new.horizon_bars
      then if is_waiting r.verdict then (merge r new ∷ rs, some (merge r new)) else (r ∷ rs, none)
      else (r ∷ rest, returned)

  abbrev pub keep_some : Option (OutcomeRow N) → List (OutcomeRow N) → List (OutcomeRow N)
  keep_some none rows = rows
  keep_some (some r) rows = r ∷ rows

  unfoldable pub count_unresolved : List (OutcomeRow N) → ℕ
  count_unresolved rows =
      count_distinct [] (map (λ r. r.state_id) (filter (λ r. is_waiting r.verdict) rows))

module _ {N : Type 0} ⦃n : Number N⦄ (config : OutcomeConfig N) where
  open n use {lt}

  abbrev pub timestamp_of : Option (Candle N) → Option N
  timestamp_of none = none
  timestamp_of (some c) = some c.timestamp

  abbrev pub close_of : Option (Candle N) → Option N
  close_of none = none
  close_of (some c) = some c.close

  abbrev pub row_of : SettleInput N → HorizonOutcome N → OutcomeRow N
  row_of input h =
      let end = last_of h.bars (forward_of input.entry_timestamp input.candles) in
      record {
        state_id = input.state_id;
        direction = input.direction;
        verdict = h.verdict;
        horizon_bars = h.bars;
        entry_timestamp = input.entry_timestamp;
        entry_price = input.entry_price;
        exit_timestamp = timestamp_of end;
        exit_price = close_of end;
        return_fraction = h.return_fraction;
        max_favourable = h.max_favourable;
        max_adverse = h.max_adverse;
        closed_by = input.closed_by;
        regime = input.regime;
        data_quality = input.data_quality;
        strategy_version_id = input.strategy_version_id;
        created_at = input.now;
        updated_at = input.now;
      }

  -- The loop inside the transaction: the table, and the rows written.
  unfoldable pub settle_horizons :
      SettleInput N
      → List (HorizonOutcome N)
      → List (OutcomeRow N)
      → List (OutcomeRow N) × List (OutcomeRow N)
  unfolding upsert
  settle_horizons input [] rows = (rows, [])
  settle_horizons input (h ∷ hs) rows =
      let (rows', one) = upsert (row_of input h) rows in
      let (rows'', more) = settle_horizons input hs rows' in (rows'', keep_some one more)

  abbrev pub measure_of : SettleInput N → SignalOutcome N
  unfolding measure_outcome
  measure_of input = measure_outcome config (record {
    symbol = input.symbol;
    entry_timestamp = input.entry_timestamp;
    entry_price = input.entry_price;
    direction = input.direction;
    candles = input.candles;
    closed_by = input.closed_by;
  })

  unfoldable pub settle :
      SettleInput N → List (OutcomeRow N) → List (OutcomeRow N) × List (OutcomeRow N)
  unfolding measure_outcome settle_horizons
  settle input rows = settle_horizons input (measure_of input).horizons rows

  -- `forSeries`: the rows of a horizon, the latest entry first.
  abbrev insert_by_entry : OutcomeRow N → List (OutcomeRow N) → List (OutcomeRow N)
  insert_by_entry r [] = r ∷ []
  insert_by_entry r (c ∷ cs) =
      let rest = insert_by_entry r cs in
      if lt r.entry_timestamp c.entry_timestamp then c ∷ rest else r ∷ c ∷ cs

  abbrev sort_by_entry : List (OutcomeRow N) → List (OutcomeRow N)
  sort_by_entry [] = []
  sort_by_entry (r ∷ rs) = insert_by_entry r (sort_by_entry rs)

  pub for_series : ℕ → ℕ → List (OutcomeRow N) → List (OutcomeRow N)
  for_series horizon limit rows =
      take limit (sort_by_entry (filter (λ r. r.horizon_bars == horizon) rows))

  -- `deleteBefore`: `is_live` are the signals whose state was updated since the cutoff.
  pub delete_before : N → (ℕ → Bool) → List (OutcomeRow N) → List (OutcomeRow N)
  delete_before cutoff is_live rows =
      filter (λ r. not (lt r.entry_timestamp cutoff && is_absent_or_ended is_live r.state_id)) rows

  abbrev pub input_for :
      SettleSeries N → Option (String → Option ℕ) → ClosedSignal N → SettleInput N
  unfolding closed_by_for
  input_for series resolve signal = record {
    symbol = series.symbol;
    state_id = some signal.id;
    direction = signal.direction;
    entry_timestamp = signal.candle_timestamp;
    entry_price = signal.price;
    candles = series.candles;
    closed_by = some (closed_by_for signal.status);
    regime = series.regime;
    data_quality = series.data_quality;
    strategy_version_id =
        last_or series.strategy_version_id (resolve_with resolve signal.snapshot_id);
    now = series.now;
  }

  -- The loop over the closed signals, with the number of rows written.
  unfoldable pub settle_signals :
      SettleSeries N
      → Option (String → Option ℕ)
      → List (ClosedSignal N)
      → List (OutcomeRow N)
      → List (OutcomeRow N) × ℕ
  unfolding settle closed_by_for
  settle_signals series resolve [] rows = (rows, 0)
  settle_signals series resolve (s ∷ ss) rows =
      let (rows', written) = settle (input_for series resolve s) rows in
      let (rows'', more) = settle_signals series resolve ss rows' in (rows'', length written + more)

  -- `closed` is what `lifecycle.closed` returns.
  unfoldable pub reconcile_signal_outcomes :
      SettleSeries N
      → Option (String → Option ℕ)
      → List (ClosedSignal N)
      → List (OutcomeRow N)
      → List (OutcomeRow N) × SettleReport
  unfolding settle_signals count_unresolved
  reconcile_signal_outcomes series resolve closed rows =
      let (rows', written) = settle_signals series resolve closed rows in
      (
        rows',
        record { examined = length closed; rows = written; still_waiting = count_unresolved rows' },
      )
