-- ===== src/Outcome.antt =====
-- src/backend/outcomes/outcome.ts: what became of a signal, measured strictly after it. Prices, times
-- and fractions are numbers of the runtime (Number.antt); horizons are whole numbers of bars.
use Prim.Native.String.{String}
use buy_not_buy_com.Common.{
  ℕ, zero, suc, Bool, true, false, Option, some, none, List, [], ◌∷◌, map, filter, take, get_elem?,
  if◌then◌else◌,
}
use buy_not_buy_com.Number.{Number}
use buy_not_buy_com.CandleSeries.{Candle}
pub mod Horizon
pub mod Lookahead
mod Tests

pub data Direction : Type 0 where
  long short : Direction

pub data OutcomeVerdict : Type 0 where
  correct incorrect neutral flat unknown expired : OutcomeVerdict

pub data ClosedBy : Type 0 where
  by_invalidation by_expiry by_reversal : ClosedBy

pub record HorizonOutcome (N : Type 0) : Type 0 where
  pub bars : ℕ
  pub return_fraction : Option N
  pub max_favourable : Option N
  pub max_adverse : Option N
  pub verdict : OutcomeVerdict

pub record SignalOutcome (N : Type 0) : Type 0 where
  pub symbol : String
  pub entry_timestamp : N
  pub entry_price : N
  pub direction : Direction
  pub horizons : List (HorizonOutcome N)
  pub closed_by : Option ClosedBy

pub record OutcomeConfig (N : Type 0) : Type 0 where
  pub horizons : List ℕ
  pub breakeven_percent : N
  pub track_excursions : Bool

pub record OutcomeInput (N : Type 0) : Type 0 where
  pub symbol : String
  pub entry_timestamp : N
  pub entry_price : N
  pub direction : Direction
  pub candles : List (Candle N)
  pub closed_by : Option ClosedBy

pub record ExcursionQuestion (N : Type 0) : Type 0 where
  pub target_fraction : N
  pub stop_fraction : N

pub record ExcursionAnswers (N : Type 0) : Type 0 where
  pub answered : Bool
  pub hit_target : Bool
  pub hit_stop : Bool
  pub missed_target_by : N

abbrev pub is_empty {ℓ} : {A : Type ℓ} → List A → Bool
is_empty [] = true
is_empty (x ∷ xs) = false

-- `forward[bars - 1]`.
abbrev pub last_of {ℓ} : {A : Type ℓ} → ℕ → List A → Option A
last_of zero forward = none
last_of (suc k) forward = get_elem? forward k

module _ {N : Type 0} ⦃n : Number N⦄ where
  open n use {of_nat, sub, div, neg, min_of, max_of, lt, le}

  abbrev pub unanswered : ExcursionQuestion N → ExcursionAnswers N
  unanswered q = record {
    answered = false;
    hit_target = false;
    hit_stop = false;
    missed_target_by = q.target_fraction;
  }

  abbrev pub answer : Option N → Option N → ExcursionQuestion N → ExcursionAnswers N
  answer (some favourable) (some adverse) q =
      let hit = le q.target_fraction favourable in
      record {
        answered = true;
        hit_target = hit;
        hit_stop = le adverse (neg q.stop_fraction);
        missed_target_by = if hit then of_nat 0 else sub q.target_fraction favourable;
      }
  answer _ _ q = unanswered q

  pub read_excursions : HorizonOutcome N → ExcursionQuestion N → ExcursionAnswers N
  read_excursions h q = answer h.max_favourable h.max_adverse q

  unfoldable pub forward_fraction : Direction → N → N → N
  forward_fraction long from to = div (sub to from) from
  forward_fraction short from to = neg (div (sub to from) from)

  unfoldable pub verdict_of : N → N → OutcomeVerdict
  verdict_of value breakeven =
      if lt breakeven value then correct else if lt value (neg breakeven) then incorrect else flat

  -- `Math.max(...xs)` and `Math.min(...xs)` of at least one number.
  abbrev pub fold_from : (N → N → N) → N → List N → N
  fold_from f acc [] = acc
  fold_from f acc (x ∷ xs) = fold_from f (f acc x) xs

  abbrev pub fold_of : (N → N → N) → List N → Option N
  fold_of f [] = none
  fold_of f (x ∷ xs) = some (fold_from f x xs)

  unfoldable pub unmeasured : List (Candle N) → ℕ → HorizonOutcome N
  unmeasured forward bars = record {
    bars = bars;
    return_fraction = none;
    max_favourable = none;
    max_adverse = none;
    verdict = if is_empty forward then expired else unknown;
  }

  unfoldable pub measured :
      Direction → N → N → Bool → List (Candle N) → ℕ → Candle N → HorizonOutcome N
  unfolding forward_fraction verdict_of
  measured direction entry_price breakeven track forward bars end =
      let value = forward_fraction direction entry_price end.close in
      let excursions =
        map (λ c. forward_fraction direction entry_price c.close) (take bars forward) in
      record {
        bars = bars;
        return_fraction = some value;
        max_favourable = if track then fold_of max_of excursions else none;
        max_adverse = if track then fold_of min_of excursions else none;
        verdict = verdict_of value breakeven;
      }

  -- The body of the `map` over the horizons.
  unfoldable pub measure_horizon : Direction → N → N → Bool → List (Candle N) → ℕ → HorizonOutcome N
  measure_horizon direction entry_price breakeven track forward bars = elim (last_of bars forward) [
    | none ↦ unmeasured forward bars
    | some end ↦ measured direction entry_price breakeven track forward bars end
  ]

  abbrev pub forward_of : N → List (Candle N) → List (Candle N)
  forward_of entry candles = filter (λ c. lt entry c.timestamp) candles

  unfoldable pub measure_outcome : OutcomeConfig N → OutcomeInput N → SignalOutcome N
  measure_outcome config input =
      let breakeven = div config.breakeven_percent (of_nat 100) in
      let forward = forward_of input.entry_timestamp input.candles in
      record {
        symbol = input.symbol;
        entry_timestamp = input.entry_timestamp;
        entry_price = input.entry_price;
        direction = input.direction;
        horizons =
            map
              (measure_horizon input.direction input.entry_price breakeven config.track_excursions
                forward)
              config.horizons;
        closed_by = input.closed_by;
      }
