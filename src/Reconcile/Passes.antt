-- ===== src/Reconcile/Passes.antt =====
-- Passes that come again as candles arrive.
use Prim.Native.String.{String}
use buy_not_buy_com.Common.{
  ℕ, ◌≤◌, ◌<◌, ◌≡◌, refl, sym, ap, ◌∙◌, inl, inr, Bool, true, false, Option, some, none, List, [],
  ◌∷◌, ◌++◌, ltb, ltb→lt, length, if◌then◌else◌, Bool-cases, arith, tests,
}
use buy_not_buy_com.Number.{Number}
use buy_not_buy_com.CandleSeries.{Candle}
use buy_not_buy_com.Outcome.{
  OutcomeVerdict, Direction, HorizonOutcome, OutcomeConfig, forward_of, measure_horizon, expired,
  unknown, is_empty, unmeasured, measured,
}
use buy_not_buy_com.Outcome.Horizon.{measure_horizon_open, measure_horizon_final}
use buy_not_buy_com.Reconcile.{
  OutcomeRow, SettleInput, SettleSeries, ClosedSignal, is_waiting, settle, mem_of,
  reconcile_signal_outcomes,
}
use buy_not_buy_com.Reconcile.Rows.{
  find_row, is_resolved, verdict_in, settled, horizons-verdict, signals-keep,
}

module _ {N : Type 0} ⦃n : Number N⦄ (config : OutcomeConfig N) where
  open n use {of_nat, div, lt}

  -- What a pass with these candles measures at a horizon.
  abbrev pub measured_with : SettleInput N → List (Candle N) → ℕ → HorizonOutcome N
  measured_with input candles bars =
      measure_horizon input.direction input.entry_price (div config.breakeven_percent (of_nat 100))
        config.track_excursions (forward_of input.entry_timestamp candles) bars

  -- One pass for each arrival of candles, at its instant, over all candles so far.
  unfoldable pub run_passes :
      SettleInput N
      → List (Candle N)
      → List (List (Candle N) × ℕ)
      → List (OutcomeRow N)
      → List (OutcomeRow N)
  unfolding settle
  run_passes input seen [] rows = rows
  run_passes input seen ((batch, now) ∷ batches) rows =
      run_passes input (seen ++ batch) batches
        ((settle config (record input { candles = seen ++ batch; now = now }) rows).0)

  abbrev pub arrived : List (Candle N) → List (List (Candle N) × ℕ) → List (Candle N)
  arrived seen [] = seen
  arrived seen ((batch, now) ∷ batches) = arrived (seen ++ batch) batches

  -- A measured row is final: no pass over any closed signals, with any candles, changes it.
  pub resolved_is_final :
      (id bars : ℕ) (series : SettleSeries N) (resolve : Option (String → Option ℕ))
      (closed : List (ClosedSignal N)) (rows : List (OutcomeRow N))
      → is_resolved (find_row id bars rows) ≡ true
      → find_row id bars ((reconcile_signal_outcomes config series resolve closed rows).0)
        ≡ find_row id bars rows
  unfolding reconcile_signal_outcomes
  resolved_is_final id bars series resolve closed rows h =
      signals-keep config id bars series resolve closed rows h

  measure_horizon-bars :
      (direction : Direction) (price breakeven : N) (track : Bool) (forward : List (Candle N))
      (bars : ℕ)
      → (measure_horizon direction price breakeven track forward bars).bars ≡ bars
  unfolding measure_horizon measured unmeasured
  measure_horizon-bars direction price breakeven track forward bars = ground arith

  settle-verdict :
      (id bars now : ℕ) (input : SettleInput N) (candles : List (Candle N))
      (rows : List (OutcomeRow N))
      → input.state_id ≡ some id
      → mem_of bars config.horizons ≡ true
      → verdict_in (
          find_row id bars ((settle config (record input { candles = candles; now = now }) rows).0))
        ≡ some (settled config (find_row id bars rows) (measured_with input candles bars).verdict)
  unfolding settle
  settle-verdict id bars now input candles rows same listed =
      let input' = record input { candles = candles; now = now } in
      let all =
        horizons-verdict config id bars input' (measured_with input candles) config.horizons rows
          same
          (measure_horizon-bars input.direction input.entry_price
            (div config.breakeven_percent (of_nat 100)) config.track_excursions
            (forward_of input.entry_timestamp candles)) in
      ground (arith, all, listed)

  forward_of-append :
      (entry : N) (xs ys : List (Candle N))
      → forward_of entry (xs ++ ys) ≡ forward_of entry xs ++ forward_of entry ys
  forward_of-append entry [] ys = refl
  forward_of-append entry (x ∷ xs) ys = ground (arith, forward_of-append entry xs ys)

  waiting_open : (none_yet : Bool) → is_waiting (if none_yet then expired else unknown) ≡ true
  waiting_open none_yet = ground arith

  -- A verdict that is no question stays when candles are added.
  measured_with-final :
      (input : SettleInput N) (xs ys : List (Candle N)) (bars : ℕ)
      → 0 < bars
      → is_waiting (measured_with input xs bars).verdict ≡ false
      → (measured_with input (xs ++ ys) bars).verdict ≡ (measured_with input xs bars).verdict
  measured_with-final input xs ys bars some_bars known =
      let forward = forward_of input.entry_timestamp xs in
      let breakeven = div config.breakeven_percent (of_nat 100) in
      elim (Bool-cases (ltb (length forward) bars)) [
        | inl short ↦
            let (_, _, _, verdict) =
              measure_horizon_open input.direction input.entry_price breakeven
                config.track_excursions forward bars some_bars
                (ltb→lt (length forward) bars short) in
            absurd (ground (arith, ap is_waiting verdict ∙ waiting_open (is_empty forward), known))
        | inr long ↦
            let enough : bars ≤ length forward = grind (tests, long) in
            ap
              (λ f.
                (measure_horizon input.direction input.entry_price breakeven config.track_excursions
                  f bars).verdict)
              (forward_of-append input.entry_timestamp xs ys)
            ∙ ap (λ h. h.verdict)
                (measure_horizon_final input.direction input.entry_price breakeven
                  config.track_excursions forward (forward_of input.entry_timestamp ys) bars
                  some_bars enough)
      ]

  settled_waiting :
      (row : Option (OutcomeRow N)) (old v : OutcomeVerdict)
      → verdict_in row ≡ some old
      → is_waiting old ≡ true
      → settled config row v ≡ v
  settled_waiting none old v held waits = absurd (ground (arith, held))
  settled_waiting (some r) old v held waits = ground (arith, held, waits)

  settled_known :
      (row : Option (OutcomeRow N)) (old v : OutcomeVerdict)
      → verdict_in row ≡ some old
      → is_waiting old ≡ false
      → settled config row v ≡ old
  settled_known none old v held known = absurd (ground (arith, held))
  settled_known (some r) old v held known = ground (arith, held, known)

  -- The row reflects the candles of the last pass, where there was one.
  abbrev Reflects : Option (OutcomeRow N) → OutcomeVerdict → Type 0
  Reflects row v = verdict_in row ≡ some v

  next_pass :
      (id bars now : ℕ) (input : SettleInput N) (seen batch : List (Candle N))
      (rows : List (OutcomeRow N))
      → input.state_id ≡ some id
      → mem_of bars config.horizons ≡ true
      → 0 < bars
      → Reflects (find_row id bars rows) (measured_with input seen bars).verdict
      → Reflects
          (find_row id bars
            ((settle config (record input { candles = seen ++ batch; now = now }) rows).0))
          (measured_with input (seen ++ batch) bars).verdict
  next_pass id bars now input seen batch rows same listed some_bars held =
      let next = settle-verdict id bars now input (seen ++ batch) rows same listed in
      let old = (measured_with input seen bars).verdict in
      elim (Bool-cases (is_waiting old)) [
        | inl waits ↦ next ∙ ap some (settled_waiting (find_row id bars rows) old _ held waits)
        | inr known ↦
            next
            ∙ ap some (
                settled_known (find_row id bars rows) old _ held known
                ∙ sym (measured_with-final input seen batch bars some_bars known))
      ]

  passes_reflect :
      (id bars : ℕ) (input : SettleInput N) (seen : List (Candle N))
      (batches : List (List (Candle N) × ℕ)) (rows : List (OutcomeRow N))
      → input.state_id ≡ some id
      → mem_of bars config.horizons ≡ true
      → 0 < bars
      → Reflects (find_row id bars rows) (measured_with input seen bars).verdict
      → Reflects
          (find_row id bars (run_passes input seen batches rows))
          (measured_with input (arrived seen batches) bars).verdict
  unfolding run_passes
  passes_reflect id bars input seen [] rows same listed some_bars held = held
  passes_reflect id bars input seen ((batch, now) ∷ batches) rows same listed some_bars held =
      passes_reflect id bars input (seen ++ batch) batches
        ((settle config (record input { candles = seen ++ batch; now = now }) rows).0) same listed
        some_bars (next_pass id bars now input seen batch rows same listed some_bars held)

  -- It does not matter when the passes ran, or how many there were: after any passes as candles arrive,
  -- beginning with a signal that has no row yet, the verdict stored for a signal and a configured horizon
  -- of at least one bar is the one that a single measurement over all candles gives.
  pub run_passes-agree :
      (id bars : ℕ) (input : SettleInput N) (batch : List (Candle N)) (now : ℕ)
      (batches : List (List (Candle N) × ℕ)) (rows : List (OutcomeRow N))
      → input.state_id ≡ some id
      → mem_of bars config.horizons ≡ true
      → 0 < bars
      → find_row id bars rows ≡ none
      → verdict_in (find_row id bars (run_passes input [] ((batch, now) ∷ batches) rows))
        ≡ some (measured_with input (arrived batch batches) bars).verdict
  unfolding run_passes
  run_passes-agree id bars input batch now batches rows same listed some_bars absent =
      let next = settle-verdict id bars now input batch rows same listed in
      passes_reflect id bars input batch batches
        ((settle config (record input { candles = batch; now = now }) rows).0) same listed some_bars
        (next ∙ ap (λ f. some (settled config f (measured_with input batch bars).verdict)) absent)
