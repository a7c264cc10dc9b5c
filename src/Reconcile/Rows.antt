-- ===== src/Reconcile/Rows.antt =====
-- What becomes of the row of one signal and one horizon.
use Prim.Native.String.{String}
use buy_not_buy_com.Common.{
  ℕ, ◌≡◌, refl, ap, ◌∙◌, inl, inr, Bool, true, false, not, Option, some, none, List, [], ◌∷◌, ◌==◌,
  ==_iff, map, if◌then◌else◌, Bool-cases, arith,
}
use buy_not_buy_com.Number.{Number}
use buy_not_buy_com.Outcome.{OutcomeVerdict, HorizonOutcome, OutcomeConfig}
use buy_not_buy_com.Reconcile.{
  OutcomeRow, SettleInput, SettleSeries, ClosedSignal, is_waiting, is_for, merge, upsert, row_of,
  settle_horizons, settle, measure_of, settle_signals, input_for, mem_of,
}

module _ {N : Type 0} where
  -- The row of a signal and a horizon.
  unfoldable pub find_row : ℕ → ℕ → List (OutcomeRow N) → Option (OutcomeRow N)
  find_row id bars [] = none
  find_row id bars (r ∷ rs) =
      let rest = find_row id bars rs in
      if is_for r.state_id r.horizon_bars (some id) bars then some r else rest

  abbrev pub put_over : OutcomeRow N → Option (OutcomeRow N) → Option (OutcomeRow N)
  put_over new none = some new
  put_over new (some r) = if is_waiting r.verdict then some (merge r new) else some r

  find_row-upsert :
      (id bars : ℕ) (new : OutcomeRow N) (rows : List (OutcomeRow N))
      → find_row id bars ((upsert new rows).0) ≡ (
          if is_for new.state_id new.horizon_bars (some id) bars
          then put_over new (find_row id bars rows)
          else find_row id bars rows)
  unfolding find_row upsert
  find_row-upsert id bars new [] = ground arith
  find_row-upsert id bars new (r ∷ rs) = ground (arith, find_row-upsert id bars new rs)

  -- A row that is measured.
  abbrev pub is_resolved : Option (OutcomeRow N) → Bool
  is_resolved none = false
  is_resolved (some r) = not (is_waiting r.verdict)

  abbrev pub verdict_in : Option (OutcomeRow N) → Option OutcomeVerdict
  verdict_in none = none
  verdict_in (some r) = some r.verdict

module _ {N : Type 0} ⦃n : Number N⦄ (config : OutcomeConfig N) where
  horizons-keep :
      (id bars : ℕ) (input : SettleInput N) (hs : List (HorizonOutcome N))
      (rows : List (OutcomeRow N))
      → is_resolved (find_row id bars rows) ≡ true
      → find_row id bars ((settle_horizons config input hs rows).0) ≡ find_row id bars rows
  unfolding settle_horizons
  horizons-keep id bars input [] rows h = refl
  horizons-keep id bars input (o ∷ hs) rows h =
      let rows' = (upsert (row_of config input o) rows).0 in
      let same : find_row id bars rows' ≡ find_row id bars rows =
        ground (arith, h, find_row-upsert id bars (row_of config input o) rows) in
      horizons-keep id bars input hs rows' (ap is_resolved same ∙ h) ∙ same

  pub signals-keep :
      (id bars : ℕ) (series : SettleSeries N) (resolve : Option (String → Option ℕ))
      (closed : List (ClosedSignal N)) (rows : List (OutcomeRow N))
      → is_resolved (find_row id bars rows) ≡ true
      → find_row id bars ((settle_signals config series resolve closed rows).0)
        ≡ find_row id bars rows
  unfolding settle_signals settle
  signals-keep id bars series resolve [] rows h = refl
  signals-keep id bars series resolve (s ∷ ss) rows h =
      let input = input_for config series resolve s in
      let rows' = (settle config input rows).0 in
      let same = horizons-keep id bars input (measure_of config input).horizons rows h in
      signals-keep id bars series resolve ss rows' (ap is_resolved same ∙ h) ∙ same

  -- The verdict after a pass that measures `v`.
  abbrev pub settled : Option (OutcomeRow N) → OutcomeVerdict → OutcomeVerdict
  settled none v = v
  settled (some r) v = if is_waiting r.verdict then v else r.verdict

  settled-put_over :
      (new : OutcomeRow N) (f : Option (OutcomeRow N))
      → (verdict_in (put_over new f) ≡ some (settled f new.verdict))
        × (settled (put_over new f) new.verdict ≡ settled f new.verdict)
  settled-put_over new f = ground arith

  pub horizons-verdict :
      (id bars : ℕ) (input : SettleInput N) (m : ℕ → HorizonOutcome N) (ks : List ℕ)
      (rows : List (OutcomeRow N))
      → input.state_id ≡ some id
      → ((k : ℕ) → (m k).bars ≡ k)
      → verdict_in (find_row id bars ((settle_horizons config input (map m ks) rows).0)) ≡ (
          if mem_of bars ks
          then some (settled (find_row id bars rows) (m bars).verdict)
          else verdict_in (find_row id bars rows))
  unfolding settle_horizons
  horizons-verdict id bars input m [] rows same named = refl
  horizons-verdict id bars input m (k ∷ ks) rows same named =
      let new = row_of config input (m k) in
      let rows' = (upsert new rows).0 in
      let rest = horizons-verdict id bars input m ks rows' same named in
      elim (Bool-cases (k == bars)) [
        | inl here ↦
            let found : find_row id bars rows' ≡ put_over new (find_row id bars rows) =
              ground (arith, same, here, named k, find_row-upsert id bars new rows) in
            let one : (m k).verdict ≡ (m bars).verdict =
              ap (λ j. (m j).verdict) ((==_iff k bars).0 here) in
            ground (arith, rest, found, one, here, settled-put_over new (find_row id bars rows))
        | inr apart ↦
            let found : find_row id bars rows' ≡ find_row id bars rows =
              ground (arith, same, apart, named k, find_row-upsert id bars new rows) in
            ground (arith, rest, found, apart)
      ]
