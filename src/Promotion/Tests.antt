-- ===== src/Promotion/Tests.antt =====
-- One rule on its way to production, and two that go wrong.
use Prim.Native.String.{String}
use text.Mathlib.Text.{◌==◌ as str_eq}
use buy_not_buy_com.Common.{
  ℕ, ◌≡◌, refl, Bool, true, false, Option, some, none, List, [], ◌∷◌, ◌++◌, arith,
}
use buy_not_buy_com.Number.Integers.{Integer, int, integer_number}
use buy_not_buy_com.Outcome.{OutcomeVerdict, correct, flat}
use buy_not_buy_com.Promotion.{
  CandidateStage, candidate, backtest, walk_forward, shadow, approval, production, retired,
  Promotion, Request, promote_all, promote, empty_table, current, decide_promotion, write_promotion,
}
use buy_not_buy_com.Promotion.Ladder.{stage_of, climb_all, promote_all_refines}
use buy_not_buy_com.Promotion.Approval.{was_approved, production_was_approved, retired_is_final}
use buy_not_buy_com.Promotion.Evidence.{
  PromotionConfig, RuleEvidence, Produced, Judged, GateReadings, evidence_for, evidence_opens,
}
use buy_not_buy_com.Promotion.Evidence.Ready.{IsEnough, approval_has_evidence}

abbrev is_blank : String → Bool
is_blank s = str_eq s ""

abbrev request : CandidateStage → Option ℕ → Promotion
request to at = record {
  rule_id = "donchian";
  to_stage = to;
  evidence = "backtest 7";
  strategy_version_id = some 1;
  at = at;
}

abbrev asks_at : ℕ → CandidateStage → Request
asks_at t to = record { input = request to none; now = t; opens = λ c. true }

abbrev way_up : List Request
way_up =
    asks_at 1 candidate
    ∷ asks_at 2 backtest
    ∷ asks_at 3 walk_forward
    ∷ asks_at 4 shadow
    ∷ asks_at 5 production
    ∷ asks_at 6 approval
    ∷ asks_at 7 production
    ∷ []

promote_all_refines_example :
    stage_of "donchian" (promote_all is_blank empty_table way_up)
    ≡ climb_all is_blank "donchian" none way_up
promote_all_refines_example = promote_all_refines is_blank "donchian" way_up refl

production_was_approved_example : was_approved is_blank "donchian" way_up ≡ true
unfolding promote_all current
production_was_approved_example = production_was_approved is_blank "donchian" way_up refl refl

retired_is_final_example :
    stage_of "donchian" (
      promote_all is_blank empty_table
        ((asks_at 1 candidate ∷ asks_at 2 retired ∷ []) ++ asks_at 3 backtest ∷ []))
    ≡ some retired
unfolding promote_all current
retired_is_final_example =
    retired_is_final is_blank "donchian" (asks_at 1 candidate ∷ asks_at 2 retired ∷ [])
      (asks_at 3 backtest ∷ []) refl refl

-- With an instant before that of the current row, a promotion succeeds and the stage does not move.
backdated : List Request
backdated =
    asks_at 10 candidate
    ∷ record { input = request backtest (some 5); now = 11; opens = λ c. true }
    ∷ []

backdated_stays : stage_of "donchian" (promote_all is_blank empty_table backdated) ≡ some candidate
unfolding promote_all current backdated
backdated_stays = refl

-- Two promotions whose rows were read before either wrote: the rule is retired, and then is not.
abbrev overlap : Option CandidateStage
overlap =
    let t = promote_all is_blank empty_table (asks_at 1 candidate ∷ []) in
    let read = current "donchian" t.rows in
    let up = request backtest none in
    let out = request retired none in
    let decided_up = decide_promotion is_blank (λ c. true) up read in
    let decided_out = decide_promotion is_blank (λ c. true) out read in
    let t' = (write_promotion out 2 decided_out t).0 in
    stage_of "donchian" ((write_promotion up 3 decided_up t').0)

retired_returns : overlap ≡ some backtest
unfolding promote_all current decide_promotion write_promotion
retired_returns = refl

abbrev config : PromotionConfig Integer
config = record {
  shadow_minimum_ms = 10;
  shadow_minimum_signals = 2;
  promotion_margin = int 0;
  minimum_sample = 1;
  evaluation_horizon_bars = 6;
}

abbrev signal_at : ℕ → ℕ → Produced
signal_at version t = record { strategy_version_id = version; symbol = "BTC"; created_at = t }

abbrev judged_as : ℕ → OutcomeVerdict → Judged
judged_as version v = record {
  strategy_version_id = version;
  symbol = "BTC";
  horizon_bars = 6;
  verdict = v;
}

abbrev readings : GateReadings
readings = record {
  measurements = record {
    produced = signal_at 1 100 ∷ signal_at 1 105 ∷ signal_at 2 101 ∷ [];
    judged = judged_as 1 correct ∷ judged_as 2 flat ∷ [];
  };
  incumbent = some 2;
  symbol = "BTC";
  read_at = 120;
  now = 120;
}

abbrev seen : RuleEvidence
seen = record {
  signals = 2;
  resolved = 1;
  correct_count = 1;
  incorrect_count = 0;
  flat_count = 0;
  incumbent_correct = 0;
  incumbent_resolved = 1;
  first_seen_at = 100;
  last_seen_at = 105;
}

approval_has_evidence_example :
    (is_blank "backtest 7" ≡ false)
    × ((version : ℕ) × (some 1 ≡ some version)
        × IsEnough config
            (evidence_for readings.measurements version 6 (some 2) (some "BTC") 120)
            120)
unfolding promote_all current promote evidence_opens
approval_has_evidence_example =
    approval_has_evidence config is_blank readings (request approval none) 121
      (promote_all is_blank empty_table
        (asks_at 1 candidate ∷ asks_at 2 backtest ∷ asks_at 3 walk_forward ∷ asks_at 4 shadow ∷ []))
      (omega arith) refl refl
