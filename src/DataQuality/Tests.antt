-- ===== src/DataQuality/Tests.antt =====
-- A flawless series whose snapshot is stale, and the theorem at it.
use buy_not_buy_com.Common.{
  ◌≡◌, refl, true, false, not, ◌&&◌, some, none, [], ◌∷◌, All, if◌then◌else◌,
}
use buy_not_buy_com.Number.Integers.{Integer, int, integer_number, Integer-IsOrdered}
use buy_not_buy_com.Freshness.{stale, is_usable_for_signal}
use buy_not_buy_com.DataQuality.{
  DataQualityInput, freshness_factor, vetoes, assess_data_quality, score_freshness, other_factors,
}
use buy_not_buy_com.DataQuality.Veto.{all_reach, IsFinite, usable_exact}

abbrev flawless : DataQualityInput Integer
flawless = record {
  times = 10 ∷ 20 ∷ 30 ∷ [];
  now = 35;
  interval_ms = 10;
  provider_available = true;
  fallback = false;
  required_bars = 3;
  validation_issues = 0;
  snapshot_freshness = some stale;
  usable_threshold = int 1;
}

-- Every factor has the best score; the snapshot forbids a signal, and a factor is named for it.
blamed : (assess_data_quality flawless).blocked_by ≡ some freshness_factor
unfolding assess_data_quality is_usable_for_signal
blamed = refl

blamed_reaches : (assess_data_quality flawless).floor ≡ int 1
unfolding assess_data_quality
blamed_reaches = refl

flawless-IsFinite :
    All (IsFinite Integer-IsOrdered) (score_freshness flawless ∷ other_factors flawless)
unfolding score_freshness other_factors
flawless-IsFinite = (refl, (refl, (refl, (refl, (refl, tt)))))

usable_exact_example :
    let q = assess_data_quality flawless in
    (q.usable ≡ (all_reach Integer-IsOrdered (int 1) q.factors && not (vetoes (some stale))))
    × (q.blocked_by ≡ (if q.usable then none else some q.worst))
usable_exact_example = usable_exact Integer-IsOrdered flawless refl flawless-IsFinite
