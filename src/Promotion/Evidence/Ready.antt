-- ===== src/Promotion/Evidence/Ready.antt =====
-- When a rule may be approved.
use Prim.Native.String.{String}
use buy_not_buy_com.Common.{
  ℕ, ◌-◌, ◌≤◌, ◌<◌, ◌≡◌, ◌↔◌, ap, inl, inr, Bool, true, false, some, arith, Option-cases,
}
use buy_not_buy_com.Number.{Number}
use buy_not_buy_com.Promotion.{Promotion, RuleTable, GateCheck, approval, promoted, promote}
use buy_not_buy_com.Promotion.Evidence.{
  PromotionConfig, RuleEvidence, GateReadings, evaluate_shadow, evidence_for, evidence_opens,
  is_approval,
}

module _ {N : Type 0} ⦃n : Number N⦄ (config : PromotionConfig N) where
  open n use {of_nat, add, div, lt}

  -- The conditions of the shadow period, from the evidence alone.
  abbrev pub IsEnough : RuleEvidence → ℕ → Type 0
  IsEnough e now =
      (config.shadow_minimum_signals ≤ e.signals)
      × (config.shadow_minimum_ms ≤ now - e.first_seen_at)
      × (config.minimum_sample ≤ e.resolved)
      × (0 < e.incumbent_resolved)
      × (lt (div (of_nat e.correct_count) (of_nat e.resolved)) (
            add (div (of_nat e.incumbent_correct) (of_nat e.incumbent_resolved))
              config.promotion_margin)
          ≡ false)

  -- Where at least one signal must be resolved, a rule is ready exactly if it has produced the signals
  -- asked for, over the time asked for, enough of them are resolved, the running rule has resolved
  -- signals too, and the share of correct ones is not below that of the running rule plus the margin,
  -- which is a negative number.
  pub evaluate_shadow_exact :
      (e : RuleEvidence) (now : ℕ)
      → 0 < config.minimum_sample
      → ((evaluate_shadow config e now).ready ≡ true) ↔ IsEnough e now
  unfolding evaluate_shadow
  evaluate_shadow_exact e now some_sample = ground arith

  gate-ready :
      (g : GateReadings) (c : GateCheck)
      → is_approval c.to_stage ≡ true
      → evidence_opens config g c ≡ true
      → (version : ℕ) × (c.strategy_version_id ≡ some version)
        × ((evaluate_shadow config
              (evidence_for g.measurements version config.evaluation_horizon_bars g.incumbent
                (some g.symbol)
                g.read_at)
              g.now).ready
            ≡ true)
  unfolding evidence_opens
  gate-ready g c asks opens = elim (Option-cases c.strategy_version_id) [
    | inl unnamed ↦ absurd (ground (arith, asks, opens, unnamed))
    | inr (version, named) ↦ (version, named, ground (arith, asks, opens, named))
  ]

  -- A promotion to approval through the evidence gate succeeds only if it says what it rests on and names
  -- a version whose signals and outcomes, as the gate reads them, fulfil all conditions of the shadow
  -- period, provided that at least one resolved signal is required.
  pub approval_has_evidence :
      (is_blank : String → Bool) (g : GateReadings) (input : Promotion) (now : ℕ) (t : RuleTable)
      → 0 < config.minimum_sample
      → input.to_stage ≡ approval
      → (promote is_blank (evidence_opens config g) input now t).1 ≡ promoted
      → (is_blank input.evidence ≡ false)
        × ((version : ℕ) × (input.strategy_version_id ≡ some version)
            × IsEnough
                (evidence_for g.measurements version config.evaluation_horizon_bars g.incumbent
                  (some g.symbol)
                  g.read_at)
                g.now)
  unfolding promote
  approval_has_evidence is_blank g input now t some_sample asks done =
      let check : GateCheck = record {
        rule_id = input.rule_id;
        to_stage = input.to_stage;
        strategy_version_id = input.strategy_version_id;
      } in
      let (version, named, ready) =
        gate-ready g check (ap is_approval asks) (ground (arith, done)) in
      let evidence =
        evidence_for g.measurements version config.evaluation_horizon_bars g.incumbent
          (some g.symbol) g.read_at in
      (
        ground (arith, done),
        (version, named, (evaluate_shadow_exact evidence g.now some_sample).0 ready),
      )
