-- ===== src/DataQuality/Veto.antt =====
-- When a series may become a signal, and what is named when it may not.
use buy_not_buy_com.Common.{
  ◌≡◌, Bool, true, false, not, ◌&&◌, some, none, List, [], ◌∷◌, All, if◌then◌else◌, arith,
}
use buy_not_buy_com.Number.{Number, IsOrdered}
use buy_not_buy_com.DataQuality.{
  QualityBreakdown, DataQualityInput, vetoes, worst_from, other_factors, score_freshness,
  assess_data_quality,
}

module _ {N : Type 0} ⦃n : Number N⦄ (laws : IsOrdered N) where
  abbrev pub all_reach : N → List (QualityBreakdown N) → Bool
  all_reach threshold [] = true
  all_reach threshold (f ∷ fs) = n.le threshold f.score && all_reach threshold fs

  abbrev pub IsFinite : QualityBreakdown N → Type 0
  IsFinite f = n.is_finite f.score ≡ true

  reach_lesser :
      (t : N) (f w : QualityBreakdown N)
      → n.is_finite t ≡ true
      → IsFinite f
      → IsFinite w
      → n.le t ((if n.lt f.score w.score then f else w).score) ≡ (n.le t w.score && n.le t f.score)
  reach_lesser t f w ft ff fw = ground (
    arith,
    ft,
    ff,
    fw,
    laws.le-not-lt t f.score ft ff,
    laws.le-not-lt t w.score ft fw,
    laws.le-not-lt w.score f.score fw ff,
    laws.lt_of_le_lt t f.score w.score,
    laws.lt_of_lt_le f.score t w.score,
    laws.lt_trans w.score t w.score,
    laws.lt_irrefl w.score,
    laws.lt_trans t w.score t,
    laws.lt_irrefl t,
  )

  lesser-IsFinite :
      (b : Bool) (f w : QualityBreakdown N)
      → IsFinite f
      → IsFinite w
      → IsFinite (if b then f else w)
  lesser-IsFinite true f w ff fw = ff
  lesser-IsFinite false f w ff fw = fw

  worst_from-reach :
      (t : N) (w : QualityBreakdown N) (fs : List (QualityBreakdown N))
      → n.is_finite t ≡ true
      → IsFinite w
      → All IsFinite fs
      → n.le t (worst_from w fs).score ≡ (n.le t w.score && all_reach t fs)
  unfolding worst_from
  worst_from-reach t w [] ft fw _ = ground arith
  worst_from-reach t w (f ∷ fs) ft fw (ff, rest) =
      let b = n.lt f.score w.score in
      ground (
        arith,
        reach_lesser t f w ft ff fw,
        worst_from-reach t (if b then f else w) fs ft (lesser-IsFinite b f w ff fw) rest,
      )

  -- Where all scores are finite: a series is usable exactly if every one of the five factors reaches the
  -- threshold and the state of the snapshot, if there is one, does not forbid a signal; and a factor is
  -- named as what blocks exactly if the series is not usable.
  pub usable_exact :
      (input : DataQualityInput N)
      → n.is_finite input.usable_threshold ≡ true
      → All IsFinite (score_freshness input ∷ other_factors input)
      → let q = assess_data_quality input in
        (q.usable
          ≡ (all_reach input.usable_threshold q.factors && not (vetoes input.snapshot_freshness)))
        × (q.blocked_by ≡ (if q.usable then none else some q.worst))
  unfolding assess_data_quality
  usable_exact input ft (fw, rest) = ground (
    arith,
    worst_from-reach input.usable_threshold (score_freshness input) (other_factors input) ft fw
        rest,
  )
