-- ===== src/Promotion.antt =====
-- The ladder of a trading rule: src/backend/strategies/candidate.repository.ts on the table
-- signal_strategy_version. A promotion reads the newest row of its rule, asks its gate, and writes; each
-- statement of SQL is one step. The parameters of a rule are left out but for the evidence, and the texts
-- of errors are constructors. `is_blank` is `evidence.trim().length === 0`.
use Prim.Native.String.{String}
use text.Mathlib.Text.{◌==◌ as str_eq}
use buy_not_buy_com.Common.{
  ℕ, suc, ◌+◌, Bool, true, false, not, ◌&&◌, ◌||◌, Option, some, none, List, [], ◌∷◌, ltb, ◌==◌,
  map, filter, if◌then◌else◌,
}
pub mod Ladder
pub mod Approval
pub mod Evidence
mod Tests

pub data CandidateStage : Type 0 where
  candidate backtest walk_forward shadow approval production retired : CandidateStage

abbrev pub is_candidate : CandidateStage → Bool
is_candidate candidate = true
is_candidate _ = false

abbrev pub is_retired : CandidateStage → Bool
is_retired retired = true
is_retired _ = false

-- NEXT_STAGE and its `includes`.
pub can_transition : CandidateStage → CandidateStage → Bool
can_transition candidate backtest = true
can_transition backtest walk_forward = true
can_transition walk_forward shadow = true
can_transition shadow approval = true
can_transition approval production = true
can_transition retired to = false
can_transition from to = is_retired to

-- A row, and what `toRecord` makes of it.
pub record StrategyRuleRecord : Type 0 where
  pub id : ℕ
  pub rule_id : String
  pub stage : CandidateStage
  pub evidence : String
  pub promoted_at : ℕ
  pub retired_at : Option ℕ
  pub created_at : ℕ
  pub strategy_version_id : Option ℕ

-- The rows, the newest first, and the sequence of their ids.
pub record RuleTable : Type 0 where
  pub rows : List StrategyRuleRecord
  pub next_id : ℕ

pub record GateCheck : Type 0 where
  pub rule_id : String
  pub to_stage : CandidateStage
  pub strategy_version_id : Option ℕ

pub record Promotion : Type 0 where
  pub rule_id : String
  pub to_stage : CandidateStage
  pub evidence : String
  pub strategy_version_id : Option ℕ
  pub at : Option ℕ

pub data PromotionError : Type 0 where
  no_evidence gate_refused not_registered cannot_move : PromotionError

-- What a promotion will write.
pub data Decision : Type 0 where
  refuse : PromotionError → Decision
  retire : ℕ → Decision
  insert_row : Decision

pub data PromotionResult : Type 0 where
  promoted : PromotionResult
  refused : PromotionError → PromotionResult

-- `ORDER BY promoted_at DESC, id DESC`.
abbrev pub is_later : StrategyRuleRecord → StrategyRuleRecord → Bool
is_later r c = ltb c.promoted_at r.promoted_at || (c.promoted_at == r.promoted_at && ltb c.id r.id)

abbrev pub later_of : StrategyRuleRecord → Option StrategyRuleRecord → Option StrategyRuleRecord
later_of r none = some r
later_of r (some c) = if is_later r c then some r else some c

unfoldable pub current : String → List StrategyRuleRecord → Option StrategyRuleRecord
current rule [] = none
current rule (r ∷ rs) =
    let rest = current rule rs in if str_eq r.rule_id rule then later_of r rest else rest

-- `ORDER BY promoted_at, id`, by insertion.
abbrev pub insert_by_time : StrategyRuleRecord → List StrategyRuleRecord → List StrategyRuleRecord
insert_by_time r [] = r ∷ []
insert_by_time r (c ∷ cs) =
    let rest = insert_by_time r cs in if is_later r c then c ∷ rest else r ∷ c ∷ cs

abbrev sort_by_time : List StrategyRuleRecord → List StrategyRuleRecord
sort_by_time [] = []
sort_by_time (r ∷ rs) = insert_by_time r (sort_by_time rs)

pub history : String → List StrategyRuleRecord → List StrategyRuleRecord
history rule rows = sort_by_time (filter (λ r. str_eq r.rule_id rule) rows)

abbrev pub or_now : Option ℕ → ℕ → ℕ
or_now (some at) now = at
or_now none now = now

abbrev pub retire_row : ℕ → String → ℕ → StrategyRuleRecord → StrategyRuleRecord
retire_row id rule at r =
    if r.id == id && str_eq r.rule_id rule
    then record r { stage = retired; retired_at = some at }
    else r

-- The conditions behind the gate, on the row that was read before it.
abbrev pub decide_move : Option StrategyRuleRecord → CandidateStage → Decision
unfolding can_transition
decide_move none to = if is_candidate to then insert_row else refuse not_registered
decide_move (some existing) to =
    if not (can_transition existing.stage to)
    then refuse cannot_move
    else if is_retired to
    then retire existing.id
    else insert_row

-- `opens` is the gate's answer, and a gate that is absent opens.
pub decide_promotion :
    (String → Bool) → (GateCheck → Bool) → Promotion → Option StrategyRuleRecord → Decision
unfolding can_transition
decide_promotion is_blank opens input existing =
    if is_blank input.evidence
    then refuse no_evidence
    else if not (
        opens (record {
          rule_id = input.rule_id;
          to_stage = input.to_stage;
          strategy_version_id = input.strategy_version_id;
        }))
    then refuse gate_refused
    else decide_move existing input.to_stage

pub write_promotion : Promotion → ℕ → Decision → RuleTable → RuleTable × PromotionResult
write_promotion input now (refuse e) t = (t, refused e)
write_promotion input now (retire id) t =
    (record t { rows = map (retire_row id input.rule_id (or_now input.at now)) t.rows }, promoted)
write_promotion input now insert_row t =
    let at = or_now input.at now in
    let row : StrategyRuleRecord = record {
      id = t.next_id;
      rule_id = input.rule_id;
      stage = input.to_stage;
      evidence = input.evidence;
      promoted_at = at;
      retired_at = none;
      created_at = at;
      strategy_version_id = input.strategy_version_id;
    } in
    (record { rows = row ∷ t.rows; next_id = t.next_id + 1 }, promoted)

-- A promotion with the instant of its call, and the gate as it answers then.
pub record Request : Type 0 where
  pub input : Promotion
  pub now : ℕ
  pub opens : GateCheck → Bool

module _ (is_blank : String → Bool) where
  pub promote : (GateCheck → Bool) → Promotion → ℕ → RuleTable → RuleTable × PromotionResult
  unfolding decide_promotion write_promotion current
  promote opens input now t =
      write_promotion input now
        (decide_promotion is_blank opens input (current input.rule_id t.rows)) t

  unfoldable pub promote_all : RuleTable → List Request → RuleTable
  unfolding promote
  promote_all t [] = t
  promote_all t (r ∷ rs) = promote_all ((promote r.opens r.input r.now t).0) rs

abbrev pub empty_table : RuleTable
empty_table = record { rows = []; next_id = 1 }
