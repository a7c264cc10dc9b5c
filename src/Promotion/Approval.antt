-- ===== src/Promotion/Approval.antt =====
-- What a rule has passed when it reaches production, and that retirement is final.
use Prim.Native.String.{String}
use text.Mathlib.Text.{◌==◌ as str_eq}
use buy_not_buy_com.Common.{
  ℕ, ◌≡◌, refl, sym, ap, ◌∙◌, Bool, true, false, not, ◌&&◌, ◌||◌, Option, some, none, List, [], ◌∷◌,
  ◌++◌, arith,
}
use buy_not_buy_com.Promotion.{
  CandidateStage, approval, production, retired, Request, promote_all, empty_table,
}
use buy_not_buy_com.Promotion.Evidence.{is_approval}
use buy_not_buy_com.Promotion.Ladder.{
  stage_of, climb, climb_all, in_order, at_of, promote_all_refines,
}

-- A request for the approval of the rule, with evidence, that the gate let pass.
abbrev pub is_approval_of : (String → Bool) → String → Request → Bool
is_approval_of is_blank rule r =
    str_eq r.input.rule_id rule
    && is_approval r.input.to_stage
    && not (is_blank r.input.evidence)
    && r.opens (record {
      rule_id = r.input.rule_id;
      to_stage = r.input.to_stage;
      strategy_version_id = r.input.strategy_version_id;
    })

abbrev pub was_approved : (String → Bool) → String → List Request → Bool
was_approved is_blank rule [] = false
was_approved is_blank rule (r ∷ rs) =
    is_approval_of is_blank rule r || was_approved is_blank rule rs

-- Stages from which production is one step, or none.
abbrev is_past : Option CandidateStage → Bool
is_past (some approval) = true
is_past (some production) = true
is_past _ = false

climb-past :
    (is_blank : String → Bool) (rule : String) (stage : Option CandidateStage) (r : Request)
    → is_past (climb is_blank rule stage r) ≡ true
    → (is_past stage || is_approval_of is_blank rule r) ≡ true
unfolding climb
climb-past is_blank rule stage r past = ground (arith, past)

or_earlier :
    (before after here later : Bool)
    → (after ≡ true → (before || here) ≡ true)
    → (after || later) ≡ true
    → (before || (here || later)) ≡ true
or_earlier before true here later step h = ground (arith, step refl)
or_earlier before false here later step h = ground (arith, h)

climb_all-past :
    (is_blank : String → Bool) (rule : String) (stage : Option CandidateStage) (rs : List Request)
    → is_past (climb_all is_blank rule stage rs) ≡ true
    → (is_past stage || was_approved is_blank rule rs) ≡ true
unfolding climb_all
climb_all-past is_blank rule stage [] past = ground (arith, past)
climb_all-past is_blank rule stage (r ∷ rs) past =
    or_earlier (is_past stage) (is_past (climb is_blank rule stage r))
      (is_approval_of is_blank rule r) (was_approved is_blank rule rs)
      (climb-past is_blank rule stage r)
      (climb_all-past is_blank rule (climb is_blank rule stage r) rs past)

climb_all-retired :
    (is_blank : String → Bool) (rule : String) (rs : List Request)
    → climb_all is_blank rule (some retired) rs ≡ some retired
unfolding climb_all climb
climb_all-retired is_blank rule [] = refl
climb_all-retired is_blank rule (r ∷ rs) = ground (arith, climb_all-retired is_blank rule rs)

-- Requests one after the other, whose instants never go back, bring a rule to production only if one of
-- them asked for its approval, with evidence, and passed the gate.
pub production_was_approved :
    (is_blank : String → Bool) (rule : String) (rs : List Request)
    → in_order 0 rs ≡ true
    → stage_of rule (promote_all is_blank empty_table rs) ≡ some production
    → was_approved is_blank rule rs ≡ true
production_was_approved is_blank rule rs ordered reached =
    let past = climb_all-past is_blank rule none rs in
    ground (arith, promote_all_refines is_blank rule rs ordered, reached, past)

climb_all-append :
    (is_blank : String → Bool) (rule : String) (stage : Option CandidateStage)
    (rs more : List Request)
    → climb_all is_blank rule stage (rs ++ more)
      ≡ climb_all is_blank rule (climb_all is_blank rule stage rs) more
unfolding climb_all
climb_all-append is_blank rule stage [] more = refl
climb_all-append is_blank rule stage (r ∷ rs) more =
    climb_all-append is_blank rule (climb is_blank rule stage r) rs more

in_order-prefix :
    (last : ℕ) (rs more : List Request)
    → in_order last (rs ++ more) ≡ true
    → in_order last rs ≡ true
in_order-prefix last [] more ordered = refl
in_order-prefix last (r ∷ rs) more ordered =
    ground (arith, ordered, in_order-prefix (at_of r) rs more)

-- Among requests one after the other, whose instants never go back, a rule that is retired stays so
-- whatever is requested afterwards.
pub retired_is_final :
    (is_blank : String → Bool) (rule : String) (rs more : List Request)
    → in_order 0 (rs ++ more) ≡ true
    → stage_of rule (promote_all is_blank empty_table rs) ≡ some retired
    → stage_of rule (promote_all is_blank empty_table (rs ++ more)) ≡ some retired
retired_is_final is_blank rule rs more ordered reached =
    let before = promote_all_refines is_blank rule rs (in_order-prefix 0 rs more ordered) in
    promote_all_refines is_blank rule (rs ++ more) ordered
    ∙ climb_all-append is_blank rule none rs more
    ∙ ap (λ s. climb_all is_blank rule s more) (sym before ∙ reached)
    ∙ climb_all-retired is_blank rule more
