-- ===== src/DataQuality.antt =====
-- src/backend/history/data-quality.ts, assessDataQuality. Of a candle only its time is read. Scores are
-- values of the Number record; the defaults of the optional inputs are filled in, and the details, which
-- are texts, are left out.
use Prim.Native.String.{String}
use buy_not_buy_com.Common.{
  ℕ, ◌+◌, ◌-◌, ◌*◌, max, Bool, true, false, not, ◌&&◌, ◌||◌, Option, some, none, List, [], ◌∷◌,
  length, leb, ltb, ◌==◌, if◌then◌else◌,
}
use buy_not_buy_com.Number.{Number}
use buy_not_buy_com.Freshness.{MarketFreshness, is_usable_for_signal}
pub mod Veto
mod Tests

pub data QualityFactor : Type 0 where
  freshness_factor coverage_factor gaps_factor venue_factor validation_factor : QualityFactor

pub record QualityBreakdown (N : Type 0) : Type 0 where
  pub factor : QualityFactor
  pub score : N

pub record DataQuality (N : Type 0) : Type 0 where
  pub score : N
  pub floor : N
  pub worst : QualityFactor
  pub freshness : Option MarketFreshness
  pub factors : List (QualityBreakdown N)
  pub usable : Bool
  pub blocked_by : Option QualityFactor

pub record DataQualityInput (N : Type 0) : Type 0 where
  pub times : List ℕ
  pub now : ℕ
  pub interval_ms : ℕ
  pub provider_available : Bool
  pub fallback : Bool
  pub required_bars : ℕ
  pub validation_issues : ℕ
  pub snapshot_freshness : Option MarketFreshness
  pub usable_threshold : N

-- The newest time, if there is a candle.
abbrev pub latest_of : ℕ → List ℕ → ℕ
latest_of newest [] = newest
latest_of newest (t ∷ ts) = latest_of (max newest t) ts

-- The pairs of neighbours that are two intervals or more apart.
pub count_gaps : ℕ → List ℕ → ℕ
count_gaps interval_ms [] = 0
count_gaps interval_ms (previous ∷ []) = 0
count_gaps interval_ms (previous ∷ current ∷ ts) =
    (if leb (interval_ms * 2) (max current previous - (previous + current - max current previous))
      then 1
      else 0)
    + count_gaps interval_ms (current ∷ ts)

abbrev pub vetoes : Option MarketFreshness → Bool
vetoes none = false
vetoes (some state) = not (is_usable_for_signal state)

module _ {N : Type 0} ⦃n : Number N⦄ where
  abbrev natural : ℕ → N
  natural k = n.of_nat k

  pub score_freshness : DataQualityInput N → QualityBreakdown N
  score_freshness input = elim input.times [
    | [] ↦ record { factor = freshness_factor; score = natural 0 }
    | t ∷ ts ↦
        let bars_old =
          n.div (n.sub (natural input.now) (natural (latest_of t ts)))
            (natural input.interval_ms) in
        record {
          factor = freshness_factor;
          score =
              if n.lt (natural 2) bars_old
              then natural 0
              else if n.lt (natural 1) bars_old
              then n.div (natural 1) (natural 2)
              else natural 1;
        }
  ]

  pub score_coverage : DataQualityInput N → QualityBreakdown N
  score_coverage input = record {
    factor = coverage_factor;
    score =
        if length input.times == 0
        then natural 0
        else n.min_of (natural 1)
            (n.div (natural (length input.times)) (natural input.required_bars));
  }

  pub score_gaps : DataQualityInput N → QualityBreakdown N
  unfolding count_gaps
  score_gaps input = record {
    factor = gaps_factor;
    score =
        if ltb (length input.times) 2
        then natural 0
        else if count_gaps input.interval_ms input.times == 0
        then natural 1
        else natural 0;
  }

  pub score_venue : DataQualityInput N → QualityBreakdown N
  score_venue input = record {
    factor = venue_factor;
    score =
        if not input.provider_available
        then natural 0
        else if input.fallback
        then n.div (natural 8) (natural 10)
        else natural 1;
  }

  pub score_validation : DataQualityInput N → QualityBreakdown N
  score_validation input = record {
    factor = validation_factor;
    score =
        if input.validation_issues == 0
        then natural 1
        else n.max_of (natural 0) (
            n.sub (natural 1)
              (n.div (natural input.validation_issues) (natural (max 1 (length input.times)))));
  }

  pub total_of : N → List (QualityBreakdown N) → N
  total_of total [] = total
  total_of total (f ∷ fs) = total_of (n.add total f.score) fs

  pub worst_from : QualityBreakdown N → List (QualityBreakdown N) → QualityBreakdown N
  worst_from worst [] = worst
  worst_from worst (f ∷ fs) = worst_from (if n.lt f.score worst.score then f else worst) fs

  pub other_factors : DataQualityInput N → List (QualityBreakdown N)
  unfolding score_coverage score_gaps score_venue score_validation
  other_factors input =
      score_coverage input ∷ score_gaps input ∷ score_venue input ∷ score_validation input ∷ []

  pub assess_data_quality : DataQualityInput N → DataQuality N
  unfolding total_of worst_from other_factors score_freshness
  assess_data_quality input =
      let factors = score_freshness input ∷ other_factors input in
      let worst = worst_from (score_freshness input) (other_factors input) in
      let usable =
        n.le input.usable_threshold worst.score && not (vetoes input.snapshot_freshness) in
      record {
        score = n.div (total_of (natural 0) factors) (natural (length factors));
        floor = worst.score;
        worst = worst.factor;
        freshness = input.snapshot_freshness;
        factors = factors;
        usable = usable;
        blocked_by = if usable then none else some worst.factor;
      }
