-- ===== src/Consensus/Floors.antt =====
-- When a verdict is published, and what it does not depend on.
use buy_not_buy_com.Common.{
  ℕ, ◌+◌, ◌≤◌, ◌<◌, ◌≡◌, ◌≢◌, ◌⊎◌, refl, ap, ◌∙◌, Bool, false, not, ◌&&◌, List, [], ◌∷◌, arith, map,
  filter, length, Bool-cases, inl, inr,
}
use buy_not_buy_com.Number.{Number}
use buy_not_buy_com.Consensus.{
  IndicatorSignal, IndicatorAnalysis, ConsensusConfig, WeightModel, Tally, long, short, neutral,
  same_signal, tally, tally_from, tally_step, judge, calculate_consensus, weight_of,
}

abbrev pub flip_signal : IndicatorSignal → IndicatorSignal
flip_signal long = short
flip_signal short = long
flip_signal neutral = neutral

same_signal-flip :
    (x s : IndicatorSignal) → same_signal (flip_signal x) (flip_signal s) ≡ same_signal x s
same_signal-flip x s = ground arith

module _ {N : Type 0} ⦃n : Number N⦄ where
  open n use {of_nat, add, le, lt, div}

  abbrev pub flip : IndicatorAnalysis N → IndicatorAnalysis N
  flip a = record a { signal = flip_signal a.signal }

  tally_step-flip :
      (a : IndicatorAnalysis N) (s : IndicatorSignal) (m : WeightModel) (t : Tally N)
      → tally_step (flip a) (flip_signal s) m t ≡ tally_step a s m t
  unfolding tally_step
  tally_step-flip a s m t = rw (same_signal-flip a.signal s)

  tally_from-flip :
      (analyses : List (IndicatorAnalysis N)) (s : IndicatorSignal) (m : WeightModel) (t : Tally N)
      → tally_from (map flip analyses) (flip_signal s) m t ≡ tally_from analyses s m t
  unfolding tally_from
  tally_from-flip [] s m t = refl
  tally_from-flip (a ∷ rest) s m t =
      tally_from-flip rest s m (tally_step (flip a) (flip_signal s) m t)
      ∙ ap (tally_from rest s m) (tally_step-flip a s m t)

  tally-flip :
      (analyses : List (IndicatorAnalysis N)) (s : IndicatorSignal) (m : WeightModel)
      → tally (map flip analyses) (flip_signal s) m ≡ tally analyses s m
  unfolding tally
  tally-flip analyses s m = tally_from-flip analyses s m _

  judge-flip :
      (xs ys : List (IndicatorAnalysis N)) (config : ConsensusConfig N) (s : IndicatorSignal)
      (w l : Tally N)
      → ((judge xs config s w l).confidence ≡ (judge ys config (flip_signal s) w l).confidence)
        × ((judge ys config (flip_signal s) w l).signal
            ≡ flip_signal (judge xs config s w l).signal)
  unfolding judge
  judge-flip xs ys config s w l = ground arith

  -- The verdict is fair to both directions: a panel with every vote turned round gets the opposite
  -- signal with the same confidence.
  pub calculate_consensus-flip :
      (analyses : List (IndicatorAnalysis N)) (config : ConsensusConfig N)
      → let v = calculate_consensus analyses config in
        let w = calculate_consensus (map flip analyses) config in
        (w.signal ≡ flip_signal v.signal) × (w.confidence ≡ v.confidence)
  unfolding calculate_consensus
  calculate_consensus-flip analyses config =
      let m = config.weight_model in
      let longs = tally analyses long m in
      let shorts = tally analyses short m in
      rw (tally-flip analyses short m, tally-flip analyses long m)
        (ground (
          arith,
          judge-flip analyses (map flip analyses) config long longs shorts,
          judge-flip analyses (map flip analyses) config short shorts longs,
        ))

  abbrev pub is_vote : IndicatorAnalysis N → Bool
  is_vote a = not (same_signal a.signal neutral)

  tally_step-abstains :
      (a : IndicatorAnalysis N) (s : IndicatorSignal) (m : WeightModel) (t : Tally N)
      → is_vote a ≡ false
      → s ≢ neutral
      → tally_step a s m t ≡ t
  unfolding tally_step
  tally_step-abstains a s m t h k = ground arith

  tally_from-votes :
      (analyses : List (IndicatorAnalysis N)) (s : IndicatorSignal) (m : WeightModel) (t : Tally N)
      → s ≢ neutral
      → tally_from (filter is_vote analyses) s m t ≡ tally_from analyses s m t
  unfolding tally_from
  tally_from-votes [] s m t h = refl
  tally_from-votes (a ∷ rest) s m t h = elim (Bool-cases (is_vote a)) [
    | inl vote ↦ rw vote (tally_from-votes rest s m _ h)
    | inr none ↦ rw (none, tally_step-abstains a s m t none h) (tally_from-votes rest s m t h)
  ]

  tally-votes :
      (analyses : List (IndicatorAnalysis N)) (s : IndicatorSignal) (m : WeightModel)
      → s ≢ neutral
      → tally (filter is_vote analyses) s m ≡ tally analyses s m
  unfolding tally
  tally-votes analyses s m h = tally_from-votes analyses s m _ h

  judge-votes :
      (xs ys : List (IndicatorAnalysis N)) (config : ConsensusConfig N) (s : IndicatorSignal)
      (w l : Tally N)
      → ((judge xs config s w l).confidence ≡ (judge ys config s w l).confidence)
        × ((judge xs config s w l).signal ≡ (judge ys config s w l).signal)
  unfolding judge
  judge-votes xs ys config s w l = ground arith

  -- An abstaining indicator has no say: the signal and the confidence are those of the panel without
  -- its NEUTRAL analyses, whatever weights these carry.
  pub calculate_consensus-votes :
      (analyses : List (IndicatorAnalysis N)) (config : ConsensusConfig N)
      → let v = calculate_consensus analyses config in
        let w = calculate_consensus (filter is_vote analyses) config in
        (w.signal ≡ v.signal) × (w.confidence ≡ v.confidence)
  unfolding calculate_consensus
  calculate_consensus-votes analyses config =
      let m = config.weight_model in
      let longs = tally analyses long m in
      let shorts = tally analyses short m in
      rw (tally-votes analyses long m (ground arith), tally-votes analyses short m (ground arith))
        (ground (
          arith,
          judge-votes (filter is_vote analyses) analyses config long longs shorts,
          judge-votes (filter is_vote analyses) analyses config short shorts longs,
        ))

  -- How many analyses point in a direction, and how many of them with some conviction.
  pub votes_for : IndicatorSignal → List (IndicatorAnalysis N) → ℕ
  votes_for s analyses = length (filter (λ a. same_signal a.signal s) analyses)

  pub convinced_for : IndicatorSignal → WeightModel → List (IndicatorAnalysis N) → ℕ
  convinced_for s m analyses =
      length (filter (λ a. same_signal a.signal s && lt (of_nat 0) (weight_of a.weight m)) analyses)

  tally_from-counts :
      (analyses : List (IndicatorAnalysis N)) (s : IndicatorSignal) (m : WeightModel) (t : Tally N)
      → ((tally_from analyses s m t).count ≡ t.count + votes_for s analyses)
        × ((tally_from analyses s m t).weighted ≡ t.weighted + convinced_for s m analyses)
  unfolding tally_from tally_step votes_for convinced_for
  tally_from-counts [] s m t = omega arith
  tally_from-counts (a ∷ rest) s m t =
      ground (arith, tally_from-counts rest s m (tally_step a s m t))

  tally-counts :
      (analyses : List (IndicatorAnalysis N)) (s : IndicatorSignal) (m : WeightModel)
      → ((tally analyses s m).count ≡ votes_for s analyses)
        × ((tally analyses s m).weighted ≡ convinced_for s m analyses)
  unfolding tally
  tally-counts analyses s m = omega (
    arith,
    tally_from-counts analyses s m (record { count = 0; weight = of_nat 0; weighted = 0 }),
  )

  judge-agreement :
      (xs : List (IndicatorAnalysis N)) (config : ConsensusConfig N) (s : IndicatorSignal)
      (w l : Tally N)
      → (((judge xs config s w l).signal ≡ neutral)
          × ((judge xs config s w l).confidence ≡ of_nat 0))
        ⊎ (((judge xs config s w l).signal ≡ s) × (config.minimum_agreeing ≤ w.weighted))
  unfolding judge
  judge-agreement xs config s w l = ground arith

  -- A direction is published only by agreement: either the verdict is NEUTRAL with the confidence 0,
  -- or more analyses point its way than the other, and at least the configured number of them do so
  -- with conviction.
  pub calculate_consensus-agreement :
      (analyses : List (IndicatorAnalysis N)) (config : ConsensusConfig N)
      → let v = calculate_consensus analyses config in
        ((v.signal ≡ neutral) × (v.confidence ≡ of_nat 0))
        ⊎ ((votes_for (flip_signal v.signal) analyses < votes_for v.signal analyses)
            × (config.minimum_agreeing ≤ convinced_for v.signal config.weight_model analyses))
  unfolding calculate_consensus
  calculate_consensus-agreement analyses config =
      let m = config.weight_model in
      let longs = tally analyses long m in
      let shorts = tally analyses short m in
      ground (
        arith,
        tally-counts analyses long m,
        tally-counts analyses short m,
        judge-agreement analyses config long longs shorts,
        judge-agreement analyses config short shorts longs,
      )
