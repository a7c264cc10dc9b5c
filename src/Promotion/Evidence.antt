-- ===== src/Promotion/Evidence.antt =====
-- The evidence that approval asks for: src/backend/lifecycle/promotion.config.ts (evaluateShadow),
-- src/backend/lifecycle/evidence.repository.ts, whose tables are lists of rows, and
-- src/backend/services/promotion-gate.ts. Reasons and what is outstanding are constructors, not texts.
use Prim.Native.String.{String}
use text.Mathlib.Text.{◌==◌ as str_eq}
use buy_not_buy_com.Common.{
  ℕ, ◌+◌, ◌-◌, min, max, Bool, true, false, not, ◌&&◌, ◌||◌, Option, some, none, List, [], ◌∷◌,
  ◌++◌, ltb, ◌==◌, length, filter, map, if◌then◌else◌,
}
use buy_not_buy_com.Number.{Number}
use buy_not_buy_com.Outcome.{OutcomeVerdict, correct, incorrect, flat, unknown, expired}
use buy_not_buy_com.Promotion.{CandidateStage, approval, GateCheck}
pub mod Ready

pub record PromotionConfig (N : Type 0) : Type 0 where
  pub shadow_minimum_ms : ℕ
  pub shadow_minimum_signals : ℕ
  pub promotion_margin : N
  pub minimum_sample : ℕ
  pub evaluation_horizon_bars : ℕ

pub record RuleEvidence : Type 0 where
  pub signals : ℕ
  pub resolved : ℕ
  pub correct_count : ℕ
  pub incorrect_count : ℕ
  pub flat_count : ℕ
  pub incumbent_correct : ℕ
  pub incumbent_resolved : ℕ
  pub first_seen_at : ℕ
  pub last_seen_at : ℕ

pub data Outstanding : Type 0 where
  more_signals more_time more_resolved incumbent_history a_margin : Outstanding

pub data Reason : Type 0 where
  not_enough nothing_to_compare not_accurate_enough accurate_enough : Reason

pub record Verdict : Type 0 where
  pub ready : Bool
  pub reason : Reason
  pub outstanding : List Outstanding

abbrev pub missing : Bool → Outstanding → List Outstanding
missing true o = o ∷ []
missing false o = []

abbrev pub refuse_for : Reason → List Outstanding → Verdict
refuse_for reason os = record { ready = false; reason = reason; outstanding = os }

-- A row of `produced`: a signal, with the version of its snapshot.
pub record Produced : Type 0 where
  pub strategy_version_id : ℕ
  pub symbol : String
  pub created_at : ℕ

-- A row of signal_outcome.
pub record Judged : Type 0 where
  pub strategy_version_id : ℕ
  pub symbol : String
  pub horizon_bars : ℕ
  pub verdict : OutcomeVerdict

pub record Measurements : Type 0 where
  pub produced : List Produced
  pub judged : List Judged

pub record Tally : Type 0 where
  pub signals : ℕ
  pub resolved : ℕ
  pub correct_count : ℕ
  pub incorrect_count : ℕ
  pub flat_count : ℕ
  pub first_seen_at : ℕ
  pub last_seen_at : ℕ

abbrev is_correct : OutcomeVerdict → Bool
is_correct correct = true
is_correct _ = false

abbrev is_incorrect : OutcomeVerdict → Bool
is_incorrect incorrect = true
is_incorrect _ = false

abbrev is_flat : OutcomeVerdict → Bool
is_flat flat = true
is_flat _ = false

-- UNRESOLVED.
abbrev pub is_unresolved : OutcomeVerdict → Bool
is_unresolved unknown = true
is_unresolved expired = true
is_unresolved _ = false

abbrev pub is_market : Option String → String → Bool
is_market none symbol = true
is_market (some wanted) symbol = str_eq symbol wanted

abbrev pub earliest : ℕ → List Produced → ℕ
earliest now [] = now
earliest now (p ∷ []) = p.created_at
earliest now (p ∷ q ∷ ps) = min p.created_at (earliest now (q ∷ ps))

abbrev pub latest : ℕ → List Produced → ℕ
latest now [] = now
latest now (p ∷ []) = p.created_at
latest now (p ∷ q ∷ ps) = max p.created_at (latest now (q ∷ ps))

unfoldable pub tally : Measurements → ℕ → ℕ → Option String → ℕ → Tally
tally m version horizon symbol now =
    let produced =
      filter (λ p. p.strategy_version_id == version && is_market symbol p.symbol) m.produced in
    let judged =
      filter
        (λ o.
          o.strategy_version_id == version
          && o.horizon_bars == horizon
          && not (is_unresolved o.verdict)
          && is_market symbol o.symbol)
        m.judged in
    record {
      signals = length produced;
      resolved = length judged;
      correct_count = length (filter (λ o. is_correct o.verdict) judged);
      incorrect_count = length (filter (λ o. is_incorrect o.verdict) judged);
      flat_count = length (filter (λ o. is_flat o.verdict) judged);
      first_seen_at = earliest now produced;
      last_seen_at = latest now produced;
    }

abbrev pub incumbent_tally : Option Tally → ℕ × ℕ
incumbent_tally none = (0, 0)
incumbent_tally (some t) = (t.correct_count, t.resolved)

abbrev map_version : (ℕ → Tally) → Option ℕ → Option Tally
map_version f none = none
map_version f (some v) = some (f v)

unfoldable pub evidence_for : Measurements → ℕ → ℕ → Option ℕ → Option String → ℕ → RuleEvidence
unfolding tally
evidence_for m version horizon incumbent_version symbol now =
    let counts = tally m version horizon symbol now in
    let (right, resolved) =
      incumbent_tally (map_version (λ v. tally m v horizon symbol now) incumbent_version) in
    record {
      signals = counts.signals;
      resolved = counts.resolved;
      correct_count = counts.correct_count;
      incorrect_count = counts.incorrect_count;
      flat_count = counts.flat_count;
      incumbent_correct = right;
      incumbent_resolved = resolved;
      first_seen_at = counts.first_seen_at;
      last_seen_at = counts.last_seen_at;
    }

-- What the gate reads: the measurements, the version that runs now, `marketConfig.symbol`, and the
-- clock of the reader and of the gate.
pub record GateReadings : Type 0 where
  pub measurements : Measurements
  pub incumbent : Option ℕ
  pub symbol : String
  pub read_at : ℕ
  pub now : ℕ

abbrev pub is_approval : CandidateStage → Bool
is_approval approval = true
is_approval _ = false

module _ {N : Type 0} ⦃n : Number N⦄ (config : PromotionConfig N) where
  open n use {of_nat, add, div, lt}

  unfoldable pub accuracy : ℕ → ℕ → Option N
  accuracy right resolved =
      if resolved == 0 then none else some (div (of_nat right) (of_nat resolved))

  abbrev pub or_zero : Option N → N
  or_zero none = of_nat 0
  or_zero (some x) = x

  abbrev pub compare_accuracy : N → Option N → Verdict
  compare_accuracy candidate none = refuse_for nothing_to_compare (incumbent_history ∷ [])
  compare_accuracy candidate (some incumbent) =
      if lt candidate (add incumbent config.promotion_margin)
      then refuse_for not_accurate_enough (a_margin ∷ [])
      else record { ready = true; reason = accurate_enough; outstanding = [] }

  unfoldable pub evaluate_shadow : RuleEvidence → ℕ → Verdict
  unfolding accuracy
  evaluate_shadow e now =
      let outstanding =
        missing (ltb e.signals config.shadow_minimum_signals) more_signals
        ++ missing (ltb (now - e.first_seen_at) config.shadow_minimum_ms) more_time
        ++ missing (ltb e.resolved config.minimum_sample) more_resolved in
      if ltb 0 (length outstanding)
      then refuse_for not_enough outstanding
      else compare_accuracy (or_zero (accuracy e.correct_count e.resolved))
          (accuracy e.incumbent_correct e.incumbent_resolved)

  abbrev pub is_ready : GateReadings → Option ℕ → Bool
  unfolding evidence_for evaluate_shadow
  is_ready g none = false
  is_ready g (some version) =
      (evaluate_shadow
        (evidence_for g.measurements version config.evaluation_horizon_bars g.incumbent
          (some g.symbol) g.read_at)
        g.now).ready

  -- `check` of `createEvidenceGate`: whether it returns.
  unfoldable pub evidence_opens : GateReadings → GateCheck → Bool
  unfolding evidence_for evaluate_shadow
  evidence_opens g c =
      if not (is_approval c.to_stage) then true else is_ready g c.strategy_version_id
