-- ===== src/CandleSeries/Order.antt =====
-- When a series passes, and how the live and the historical checks differ.
use buy_not_buy_com.Common.{
  ℕ, ◌≤◌, ◌<◌, ◌≡◌, ◌↔◌, refl, Bool, true, false, Option, some, none, List, [], ◌∷◌, arith, All,
  length,
}
use buy_not_buy_com.Number.{Number, IsOrdered}
use buy_not_buy_com.CandleSeries.{
  Candle, CandleSeriesIssue, first_issue, candle_issues, interval_issue, freshness_issue,
  find_candle_series_issues,
}
use buy_not_buy_com.CandleSeries.Bar.{
  IsPossible, IsAfter, finite_time, candle_issue_exact, finite_parts,
}

first_issue-none :
    (i j : Option CandleSeriesIssue) → (first_issue i j ≡ none) ↔ ((i ≡ none) × (j ≡ none))
first_issue-none i j = ground arith

module _ {N : Type 0} ⦃n : Number N⦄ where
  open n use {is_finite, lt}

  -- Every candle is later than every one before it, so no time stands twice.
  abbrev pub IsIncreasing : List (Candle N) → Type 0
  IsIncreasing [] = Unit
  IsIncreasing (c ∷ rest) = All (IsAfter (some c)) rest × IsIncreasing rest

  module _ (laws : IsOrdered N) where
    open laws use {lt_trans}

    All-IsAfter_trans :
        (p : Option (Candle N)) (c : Candle N) (rest : List (Candle N))
        → IsAfter p c
        → All (IsAfter (some c)) rest
        → All (IsAfter p) rest
    All-IsAfter_trans p c [] h k = tt
    All-IsAfter_trans none c (d ∷ rest) h (k, ks) = (tt, All-IsAfter_trans none c rest h ks)
    All-IsAfter_trans (some p) c (d ∷ rest) h (k, ks) =
        (lt_trans p.timestamp c.timestamp d.timestamp h k, All-IsAfter_trans (some p) c rest h ks)

    candle_issues_exact :
        (now : N) (p : Option (Candle N)) (candles : List (Candle N))
        → is_finite now ≡ true
        → finite_time p ≡ true
        → (candle_issues now p candles ≡ none)
          ↔ (All (IsPossible now) candles × All (IsAfter p) candles × IsIncreasing candles)
    unfolding candle_issues
    candle_issues_exact now p [] f g = (λ h. (tt, tt, tt), λ h. refl)
    candle_issues_exact now p (c ∷ rest) f g = (
      λ h.
          let (one, more) = (first_issue-none _ _).0 h in
          let (possible, after) = (candle_issue_exact laws now p c f g).0 one in
          let time = (finite_parts laws c possible.finite).0 in
          let (all, later, increasing) = (candle_issues_exact now (some c) rest f time).0 more in
          ((possible, all), (after, All-IsAfter_trans p c rest after later), (later, increasing)),
      λ ((possible, all), (after, _), (later, increasing)).
          let time = (finite_parts laws c possible.finite).0 in
          (first_issue-none _ _).1 (
            (candle_issue_exact laws now p c f g).1 (possible, after),
            (candle_issues_exact now (some c) rest f time).1 (all, later, increasing),
          ),
    )

    IsAfter-nothing : (candles : List (Candle N)) → All (IsAfter none) candles
    IsAfter-nothing [] = tt
    IsAfter-nothing (c ∷ rest) = (tt, IsAfter-nothing rest)

    -- At a finite time and without an interval, a series passes exactly if it is not empty and not
    -- too long, each of its candles is a possible one that has opened, and every candle is later
    -- than all before it.
    pub find_candle_series_issues_exact :
        (candles : List (Candle N)) (now : N) (max_count : ℕ) (require_fresh : Bool)
        → is_finite now ≡ true
        → (find_candle_series_issues candles now max_count none require_fresh ≡ none) ↔ (
            (0 < length candles)
            × (length candles ≤ max_count)
            × All (IsPossible now) candles
            × IsIncreasing candles)
    unfolding find_candle_series_issues interval_issue
    find_candle_series_issues_exact [] now max_count fresh f = ground arith
    find_candle_series_issues_exact (c ∷ rest) now max_count fresh f = (
      λ h.
          let (short, passed) = gate.0 h in
          let (all, _, increasing) = walk.0 passed in (omega arith, short, all, increasing),
      λ (_, short, all, increasing).
          gate.1 (short, walk.1 (all, IsAfter-nothing (c ∷ rest), increasing)),
    )
      where
        walk : (candle_issues now none (c ∷ rest) ≡ none) ↔ (
            All (IsPossible now) (c ∷ rest)
            × All (IsAfter none) (c ∷ rest)
            × IsIncreasing (c ∷ rest))
        walk = candle_issues_exact now none (c ∷ rest) f refl

        gate :
            (find_candle_series_issues (c ∷ rest) now max_count none fresh ≡ none)
            ↔ ((length (c ∷ rest) ≤ max_count) × (candle_issues now none (c ∷ rest) ≡ none))
        gate = ground arith

  -- With an interval the live check finds what the historical check finds, and only where that finds
  -- nothing can it refuse the series for its age.
  pub live_check_adds_freshness :
      (candles : List (Candle N)) (now interval_ms : N) (max_count : ℕ)
      → find_candle_series_issues candles now max_count (some interval_ms) true
        ≡ first_issue
            (find_candle_series_issues candles now max_count (some interval_ms) false)
            (freshness_issue candles now interval_ms)
  unfolding find_candle_series_issues interval_issue
  live_check_adds_freshness [] now i max_count = refl
  live_check_adds_freshness (c ∷ rest) now i max_count = ground arith
