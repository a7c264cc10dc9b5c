-- ===== src/Consensus.antt =====
-- src/backend/signals/consensus.ts: the panel of indicators turned into one published signal. Weights
-- and confidences are numbers of the runtime (Number.antt), with every operation in the order of the
-- source; counts are whole numbers.
use Prim.Native.String.{String, ◌++◌ as append_text}
use buy_not_buy_com.Common.{
  ℕ, suc, ◌+◌, Bool, true, false, not, ◌&&◌, ◌||◌, List, [], ◌∷◌, ltb, leb, ◌==◌, map, filter,
  length, if◌then◌else◌,
}
use buy_not_buy_com.Number.{Number}
pub mod Panel
pub mod Floors
mod Tests

pub data IndicatorSignal : Type 0 where
  long short neutral : IndicatorSignal

pub record IndicatorAnalysis (N : Type 0) : Type 0 where
  pub name : String
  pub signal : IndicatorSignal
  pub weight : N

pub data WeightModel : Type 0 where
  continuous binary square_root : WeightModel

pub data ConfidenceModel : Type 0 where
  wilson share mean_conviction : ConfidenceModel

pub record ConsensusConfig (N : Type 0) : Type 0 where
  pub minimum_agreeing : ℕ
  pub minimum_mean_conviction : N
  pub weight_model : WeightModel
  pub confidence_model : ConfidenceModel

pub record SignalPanel (N : Type 0) : Type 0 where
  pub supporting : List (IndicatorAnalysis N)
  pub opposing : List (IndicatorAnalysis N)
  pub abstaining : List (IndicatorAnalysis N)

pub record Tally (N : Type 0) : Type 0 where
  pub count : ℕ
  pub weight : N
  pub weighted : ℕ

pub record Verdict (N : Type 0) : Type 0 where
  pub signal : IndicatorSignal
  pub confidence : N
  pub reason : String

abbrev pub same_signal : IndicatorSignal → IndicatorSignal → Bool
same_signal long long = true
same_signal short short = true
same_signal neutral neutral = true
same_signal _ _ = false

abbrev pub signal_text : IndicatorSignal → String
signal_text long = "LONG"
signal_text short = "SHORT"
signal_text neutral = "NEUTRAL"

-- `names.slice(0, -1).join(', ')`, then the last name.
pub join_russian : List String → String
join_russian [] = ""
join_russian (name ∷ []) = name
join_russian (name ∷ last ∷ []) = append_text name (append_text " и " last)
join_russian (name ∷ next ∷ more ∷ names) =
    append_text name (append_text ", " (join_russian (next ∷ more ∷ names)))

module _ {N : Type 0} where
  pub partition_panel : List (IndicatorAnalysis N) → IndicatorSignal → SignalPanel N
  partition_panel analyses direction = record {
    supporting =
        if same_signal direction neutral
        then []
        else filter (λ a. same_signal a.signal direction) analyses;
    opposing =
        if same_signal direction neutral
        then []
        else filter
            (λ a. not (same_signal a.signal direction) && not (same_signal a.signal neutral))
            analyses;
    abstaining = filter (λ a. same_signal a.signal neutral) analyses;
  }

  abbrev is_empty : List (IndicatorAnalysis N) → Bool
  is_empty [] = true
  is_empty (a ∷ rest) = false

  abbrev names_of : List (IndicatorAnalysis N) → List String
  names_of [] = []
  names_of (a ∷ rest) = a.name ∷ names_of rest

  pub describe_signal : SignalPanel N → IndicatorSignal → String → String
  unfolding join_russian
  describe_signal panel direction reason =
      let names = names_of panel.supporting in
      let verb = if length names == 1 then "подтверждает" else "подтверждают" in
      let only =
        if not (is_empty panel.abstaining) && is_empty panel.opposing then "Только " else "" in
      if same_signal direction neutral || is_empty panel.supporting
      then reason
      else append_text only (
          append_text (join_russian names)
            (append_text " " (append_text verb (append_text " " (signal_text direction)))))

module _ {N : Type 0} ⦃n : Number N⦄ where
  open n use {of_nat, add, sub, mul, div, sqrt, round, min_of, max_of, is_finite, lt, le}

  pub clamp_weight : N → N
  clamp_weight value =
      if not (is_finite value) then of_nat 0 else min_of (of_nat 1) (max_of (of_nat 0) value)

  -- `Z_95`, 1.959963985: the quotient of two whole numbers, rounded once, is the literal's value.
  abbrev pub z_95 : N
  z_95 = div (of_nat 1_959_963_985) (of_nat 1_000_000_000)

  pub wilson_lower_bound : N → N → N → N
  wilson_lower_bound successes trials z =
      let p = div successes trials in
      let denominator = add (of_nat 1) (div (mul z z) trials) in
      let centre = add p (div (mul z z) (mul (of_nat 2) trials)) in
      let margin = mul z (
        sqrt (
          add (div (mul p (sub (of_nat 1) p)) trials)
            (div (mul z z) (mul (mul (of_nat 4) trials) trials)))) in
      if le trials (of_nat 0)
      then of_nat 0
      else max_of (of_nat 0) (min_of (of_nat 1) (div (sub centre margin) denominator))

  pub weight_of : N → WeightModel → N
  unfolding clamp_weight
  weight_of raw continuous = clamp_weight raw
  weight_of raw binary = if lt (of_nat 0) (clamp_weight raw) then of_nat 1 else of_nat 0
  weight_of raw square_root = sqrt (clamp_weight raw)

  pub confidence_of : N → N → N → ConfidenceModel → N
  confidence_of winning losing conviction wilson = round (
      mul
        (wilson_lower_bound (mul winning (of_nat 100)) (mul (add winning losing) (of_nat 100)) z_95)
        (of_nat 100))
  confidence_of winning losing conviction share =
      round (mul (div winning (add winning losing)) (of_nat 100))
  confidence_of winning losing conviction mean_conviction = round (mul conviction (of_nat 100))

  -- One round of the loop of `tally`, over its three counters.
  pub tally_step : IndicatorAnalysis N → IndicatorSignal → WeightModel → Tally N → Tally N
  tally_step a signal model t = if not (same_signal a.signal signal) then t else record {
    count = t.count + 1;
    weight = add t.weight (weight_of a.weight model);
    weighted = if lt (of_nat 0) (weight_of a.weight model) then t.weighted + 1 else t.weighted;
  }

  pub tally_from : List (IndicatorAnalysis N) → IndicatorSignal → WeightModel → Tally N → Tally N
  tally_from [] signal model t = t
  tally_from (a ∷ rest) signal model t = tally_from rest signal model (tally_step a signal model t)

  pub tally : List (IndicatorAnalysis N) → IndicatorSignal → WeightModel → Tally N
  tally analyses signal model =
      tally_from analyses signal model (record { count = 0; weight = of_nat 0; weighted = 0 })

  abbrev pub silence : String → Verdict N
  silence reason = record { signal = neutral; confidence = of_nat 0; reason = reason }

  -- The floors of `calculateConsensus`, once one side has the most votes.
  pub judge :
      List (IndicatorAnalysis N)
      → ConsensusConfig N
      → IndicatorSignal
      → Tally N
      → Tally N
      → Verdict N
  judge analyses config winner winning losing =
      let panel = partition_panel analyses winner in
      let names = join_russian (names_of panel.supporting) in
      let conviction = div winning.weight (of_nat winning.weighted) in
      let floor_reason =
        append_text names (append_text " едва подтверждают " (signal_text winner)) in
      if ltb winning.weighted config.minimum_agreeing
      then silence (
          append_text "Нет большинства: только "
            (append_text names (append_text " за " (signal_text winner))))
      else if le (add winning.weight losing.weight) (of_nat 0)
      then silence "Ни один индикатор не даёт сигнала"
      else if lt conviction config.minimum_mean_conviction
      then silence floor_reason
      else record {
        signal = winner;
        confidence = confidence_of winning.weight losing.weight conviction config.confidence_model;
        reason = describe_signal panel winner floor_reason;
      }

  pub calculate_consensus : List (IndicatorAnalysis N) → ConsensusConfig N → Verdict N
  calculate_consensus analyses config =
      let longs = tally analyses long config.weight_model in
      let shorts = tally analyses short config.weight_model in
      if longs.count == shorts.count
      then silence (
          if ltb 0 longs.count
          then "Индикаторы дают противоположные сигналы"
          else "Ни один индикатор не даёт сигнала")
      else if ltb shorts.count longs.count
      then judge analyses config long longs shorts
      else judge analyses config short shorts longs
