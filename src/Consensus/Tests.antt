-- ===== src/Consensus/Tests.antt =====
-- A panel of three indicators, with integers for weights.
use Prim.Native.String.{String}
use buy_not_buy_com.Common.{◌≤◌, ◌<◌, ◌≡◌, ◌≢◌, ◌⊎◌, refl, List, [], ◌∷◌, arith}
use buy_not_buy_com.Number.Integers.{Integer, int, integer_number}
use buy_not_buy_com.Consensus.{
  IndicatorAnalysis, IndicatorSignal, ConsensusConfig, WeightModel, ConfidenceModel, long, neutral,
  calculate_consensus, partition_panel, judge, tally, tally_from, tally_step, weight_of,
  confidence_of, describe_signal, join_russian,
}
use buy_not_buy_com.Consensus.Floors.{
  flip_signal, votes_for, convinced_for, calculate_consensus-agreement,
}

abbrev says : String → IndicatorSignal → IndicatorAnalysis Integer
says name s = record { name = name; signal = s; weight = int 1 }

abbrev panel : List (IndicatorAnalysis Integer)
panel = says "EMA 300" long ∷ says "Stochastic 100" neutral ∷ says "Momentum 100" long ∷ []

abbrev config : ConsensusConfig Integer
config = record {
  minimum_agreeing = 2;
  minimum_mean_conviction = int 0;
  weight_model = WeightModel.continuous;
  confidence_model = ConfidenceModel.share;
}

published : calculate_consensus panel config ≡ record {
  signal = long;
  confidence = int 100;
  reason = "Только EMA 300 и Momentum 100 подтверждают LONG";
}
unfolding calculate_consensus judge tally tally_from tally_step weight_of confidence_of
    describe_signal join_russian partition_panel
published = refl

long_ne_neutral : long ≢ neutral
long_ne_neutral = ground arith

calculate_consensus-agreement_example :
    let v = calculate_consensus panel config in
    ((v.signal ≡ neutral) × (v.confidence ≡ int 0))
    ⊎ ((votes_for (flip_signal v.signal) panel < votes_for v.signal panel)
        × (2 ≤ convinced_for v.signal WeightModel.continuous panel))
calculate_consensus-agreement_example = calculate_consensus-agreement panel config
