-- ===== src/Extrema.antt =====
-- src/backend/indicators/local-extrema.ts: the turning points of a series, a flat run being one point.
-- An index below 0 reads no value, so that a window that would begin there is refused.
use buy_not_buy_com.Common.{
  ℕ, zero, suc, ◌+◌, ◌-◌, ◌/◌, Bool, true, false, not, ◌&&◌, ◌||◌, Option, some, none, List, [],
  ◌∷◌, ltb, ◌==◌, length, get_elem?, if◌then◌else◌,
}
use buy_not_buy_com.Number.{Number}
pub mod Rounds
mod Tests

abbrev pub keep : Option ℕ → List ℕ → List ℕ
keep none found = found
keep (some i) found = i ∷ found

module _ {N : Type 0} ⦃n : Number N⦄ where
  open n use {eq, le}

  -- `values[index] === current`; no value equals `undefined`.
  abbrev pub is_same : Option N → N → Bool
  is_same none current = false
  is_same (some x) current = eq x current

  -- The first loop of `findPlateau`, from `start`.
  pub plateau_start : List N → N → ℕ → ℕ
  plateau_start values current zero = zero
  plateau_start values current (suc before) =
      let rest = plateau_start values current before in
      if is_same (get_elem? values before) current then rest else suc before

  -- The second loop, from `end`, with the number of rounds that are left in the series.
  pub plateau_end : List N → N → ℕ → ℕ → ℕ
  plateau_end values current zero end = end
  plateau_end values current (suc left) end =
      let rest = plateau_end values current left (end + 1) in
      if is_same (get_elem? values (end + 1)) current then rest else end

  abbrev pub is_outside : N → Bool → Option N → Bool
  is_outside current want_higher none = false
  is_outside current true (some x) = not (le x current)
  is_outside current false (some x) = not (le current x)

  -- `windowIsStrictlyOutside` over `count` indices from `from`.
  pub window_is_strictly_outside : List N → N → ℕ → ℕ → Bool → Bool
  window_is_strictly_outside values current from zero want_higher = true
  window_is_strictly_outside values current from (suc count) want_higher =
      is_outside current want_higher (get_elem? values from)
      && window_is_strictly_outside values current (from + 1) count want_higher

  pub is_extremum : List N → N → ℕ → ℕ → ℕ → ℕ → Bool → Bool
  unfolding window_is_strictly_outside
  is_extremum values current start end left right want_higher =
      not (ltb start left)
      && (window_is_strictly_outside values current (start - left) left want_higher
          && window_is_strictly_outside values current (end + 1) right want_higher)

  -- One round: the point that it finds, if any, and the next index.
  pub extremum_at : List N → ℕ → ℕ → Bool → ℕ → N → Option ℕ × ℕ
  unfolding plateau_start plateau_end is_extremum
  extremum_at values left right want_higher index current =
      let start = plateau_start values current index in
      let end = plateau_end values current (length values - 1 - index) index in
      (
        (if is_extremum values current start end left right want_higher
            then some (start + (end - start) / 2)
            else none),
        end + 1,
      )

  -- The loop of `findExtrema`. Each round goes on at a later index, so that as many rounds as there are
  -- values are enough.
  pub extrema_from : List N → ℕ → ℕ → Bool → ℕ → ℕ → List ℕ
  unfolding extremum_at
  extrema_from values left right want_higher zero index = []
  extrema_from values left right want_higher (suc rounds) index = elim (get_elem? values index) [
    | none ↦ []
    | some current ↦
        let (found, next) = extremum_at values left right want_higher index current in
        keep found (extrema_from values left right want_higher rounds next)
  ]

  pub find_extrema : List N → ℕ → ℕ → Bool → List ℕ
  unfolding extrema_from
  find_extrema values left right want_higher =
      extrema_from values left right want_higher (length values) 0

  -- The two entry points, which throw on an empty series and on an empty window.
  abbrev pub checked_extrema : List N → ℕ → ℕ → Bool → Option (List ℕ)
  checked_extrema values left right want_higher =
      if length values == 0 || (left == 0 || right == 0)
      then none
      else some (find_extrema values left right want_higher)

  pub find_local_bottoms : List N → ℕ → ℕ → Option (List ℕ)
  unfolding find_extrema
  find_local_bottoms values left right = checked_extrema values left right true

  pub find_local_tops : List N → ℕ → ℕ → Option (List ℕ)
  unfolding find_extrema
  find_local_tops values left right = checked_extrema values left right false
