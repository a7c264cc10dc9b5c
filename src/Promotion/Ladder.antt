-- ===== src/Promotion/Ladder.antt =====
-- The table as one stage for each rule.
use Prim.Native.String.{String}
use text.Mathlib.Text.{◌==◌ as str_eq}
use text.Mathlib.TextEquality.{eq_iff}
use mathlib.Core.Path.{subst}
use buy_not_buy_com.Common.{
  ℕ, ◌+◌, ◌≤◌, ◌≡◌, refl, ap, ◌∙◌, ◌⊎◌, inl, inr, Bool, true, false, not, ◌&&◌, Option, some, none,
  List, [], ◌∷◌, ltb, leb, map, if◌then◌else◌, Option-cases, Bool-cases, arith,
}
use buy_not_buy_com.Promotion.{
  CandidateStage, retired, StrategyRuleRecord, RuleTable, Request, current, retire_row,
  is_candidate, can_transition, promote, promote_all, empty_table, or_now, later_of, PromotionError,
  Decision, refuse, retire, insert_row, decide_promotion,
}

abbrev pub stage_in : Option StrategyRuleRecord → Option CandidateStage
stage_in none = none
stage_in (some r) = some r.stage

-- The stage of a rule is that of its current row.
abbrev pub stage_of : String → RuleTable → Option CandidateStage
stage_of rule t = stage_in (current rule t.rows)

-- The ladder: a rule begins as a candidate, and moves along `can_transition`.
abbrev pub may_enter : Option CandidateStage → CandidateStage → Bool
unfolding can_transition
may_enter none to = is_candidate to
may_enter (some from) to = can_transition from to

abbrev pub is_accepted : (String → Bool) → Option CandidateStage → Request → Bool
unfolding can_transition
is_accepted is_blank stage r =
    not (is_blank r.input.evidence)
    && r.opens (record {
      rule_id = r.input.rule_id;
      to_stage = r.input.to_stage;
      strategy_version_id = r.input.strategy_version_id;
    })
    && may_enter stage r.input.to_stage

-- What a rule's stage becomes by a request, which may be one for another rule.
unfoldable pub climb :
    (String → Bool) → String → Option CandidateStage → Request → Option CandidateStage
unfolding can_transition
climb is_blank rule stage r =
    if str_eq r.input.rule_id rule && is_accepted is_blank stage r
    then some r.input.to_stage
    else stage

unfoldable pub climb_all :
    (String → Bool) → String → Option CandidateStage → List Request → Option CandidateStage
unfolding climb
climb_all is_blank rule stage [] = stage
climb_all is_blank rule stage (r ∷ rs) = climb_all is_blank rule (climb is_blank rule stage r) rs

-- The instant that a request writes.
abbrev pub at_of : Request → ℕ
at_of r = or_now r.input.at r.now

-- The requests write instants that never go back.
abbrev pub in_order : ℕ → List Request → Bool
in_order last [] = true
in_order last (r ∷ rs) = leb last (at_of r) && in_order (at_of r) rs

-- All rows are as old as `last`, and have ids below `next`.
abbrev pub bounded : ℕ → ℕ → List StrategyRuleRecord → Bool
bounded last next [] = true
bounded last next (r ∷ rs) = leb r.promoted_at last && ltb r.id next && bounded last next rs

abbrev map_row :
    (StrategyRuleRecord → StrategyRuleRecord)
    → Option StrategyRuleRecord
    → Option StrategyRuleRecord
map_row f none = none
map_row f (some r) = some (f r)

abbrev later_here :
    String → StrategyRuleRecord → Option StrategyRuleRecord → Option StrategyRuleRecord
later_here rule r rest = if str_eq r.rule_id rule then later_of r rest else rest

retire-later :
    (rule : String) (id : ℕ) (of : String) (at : ℕ) (r : StrategyRuleRecord)
    (rest : Option StrategyRuleRecord)
    → later_here rule (retire_row id of at r) (map_row (retire_row id of at) rest)
      ≡ map_row (retire_row id of at) (later_here rule r rest)
retire-later rule id of at r none = ground arith
retire-later rule id of at r (some c) = ground arith

current-retire :
    (rule : String) (id : ℕ) (of : String) (at : ℕ) (rows : List StrategyRuleRecord)
    → current rule (map (retire_row id of at) rows)
      ≡ map_row (retire_row id of at) (current rule rows)
unfolding current
current-retire rule id of at [] = refl
current-retire rule id of at (r ∷ rs) =
    ap (later_here rule (retire_row id of at r)) (current-retire rule id of at rs)
    ∙ retire-later rule id of at r (current rule rs)

bounded-retire :
    (last next id : ℕ) (of : String) (at : ℕ) (rows : List StrategyRuleRecord)
    → bounded last next (map (retire_row id of at) rows) ≡ bounded last next rows
bounded-retire last next id of at [] = refl
bounded-retire last next id of at (r ∷ rs) = ground (arith, bounded-retire last next id of at rs)

bounded-older :
    (last later next : ℕ) (rows : List StrategyRuleRecord)
    → last ≤ later
    → bounded last next rows ≡ true
    → bounded later next rows ≡ true
bounded-older last later next [] h b = refl
bounded-older last later next (r ∷ rs) h b = ground (arith, b, bounded-older last later next rs h)

bounded_mono :
    (last later next : ℕ) (rows : List StrategyRuleRecord)
    → last ≤ later
    → bounded last next rows ≡ true
    → bounded later (next + 1) rows ≡ true
bounded_mono last later next [] h b = refl
bounded_mono last later next (r ∷ rs) h b = ground (arith, b, bounded_mono last later next rs h)

-- The current row of a rule is its own, and as old and as low as the others.
abbrev fits : String → ℕ → ℕ → Option StrategyRuleRecord → Bool
fits rule last next none = true
fits rule last next (some c) = str_eq c.rule_id rule && leb c.promoted_at last && ltb c.id next

current-fits :
    (rule : String) (last next : ℕ) (rows : List StrategyRuleRecord)
    → bounded last next rows ≡ true
    → fits rule last next (current rule rows) ≡ true
unfolding current
current-fits rule last next [] b = refl
current-fits rule last next (r ∷ rs) b = ground (arith, b, current-fits rule last next rs)

-- Retiring a row of one rule leaves the stages of the others.
retire-other :
    (rule : String) (last next id : ℕ) (of : String) (at : ℕ) (o : Option StrategyRuleRecord)
    → fits rule last next o ≡ true
    → str_eq of rule ≡ false
    → stage_in (map_row (retire_row id of at) o) ≡ stage_in o
retire-other rule last next id of at none f apart = refl
retire-other rule last next id of at (some c) f apart =
    ground (arith, f, apart, eq_iff c.rule_id rule, eq_iff c.rule_id of, eq_iff of rule)

retire-own :
    (rule : String) (last next : ℕ) (at : ℕ) (c : StrategyRuleRecord)
    → fits rule last next (some c) ≡ true
    → stage_in (map_row (retire_row c.id rule at) (some c)) ≡ some retired
retire-own rule last next at c f = ground (arith, f)

Decision-cases :
    (d : Decision)
    → ((e : PromotionError) × (d ≡ refuse e)) ⊎ (((id : ℕ) × (d ≡ retire id)) ⊎ (d ≡ insert_row))
Decision-cases (refuse e) = inl (e, refl)
Decision-cases (retire id) = inr (inl (id, refl))
Decision-cases insert_row = inr (inr refl)

module _ (is_blank : String → Bool) (rule : String) (last : ℕ) (r : Request) (t : RuleTable) where
  abbrev own : Option StrategyRuleRecord
  own = current r.input.rule_id t.rows

  abbrev decided : Decision
  decided = decide_promotion is_blank r.opens r.input own

  decided-refuse :
      (e : PromotionError) → decided ≡ refuse e → is_accepted is_blank (stage_in own) r ≡ false
  unfolding decide_promotion
  decided-refuse e d = ground (arith, d)

  decided-retire :
      (id : ℕ)
      → decided ≡ retire id
      → (is_accepted is_blank (stage_in own) r ≡ true)
        × (r.input.to_stage ≡ retired)
        × ((c : StrategyRuleRecord) × (own ≡ some c) × (c.id ≡ id))
  unfolding decide_promotion
  decided-retire id d = elim (Option-cases own) [
    | inl absent ↦ absurd (ground (arith, d, absent))
    | inr (c, found) ↦
        (ground (arith, d, found), ground (arith, d, found), (c, found, ground (arith, d, found)))
  ]

  decided-insert : decided ≡ insert_row → is_accepted is_blank (stage_in own) r ≡ true
  unfolding decide_promotion
  decided-insert d = ground (arith, d)

  promote-climbs :
      bounded last t.next_id t.rows ≡ true
      → last ≤ at_of r
      → stage_of rule ((promote is_blank r.opens r.input r.now t).0)
        ≡ climb is_blank rule (stage_of rule t) r
  unfolding promote current climb
  promote-climbs b later = elim (Decision-cases decided) [
    | inl (e, d) ↦ ground (arith, d, decided-refuse e d, eq_iff r.input.rule_id rule)
    | inr (inl (id, d)) ↦
        let (ok, to, (c, found, same)) = decided-retire id d in
        elim (Bool-cases (str_eq r.input.rule_id rule)) [
          | inl one ↦
              subst
                (λ x.
                  stage_of x ((promote is_blank r.opens r.input r.now t).0)
                  ≡ climb is_blank x (stage_of x t) r)
                ((eq_iff r.input.rule_id rule).0 one)
                (ground (
                  arith,
                  d,
                  ok,
                  to,
                  found,
                  same,
                  eq_iff r.input.rule_id r.input.rule_id,
                  current-retire r.input.rule_id id r.input.rule_id (at_of r) t.rows,
                  retire-own r.input.rule_id last t.next_id (at_of r) c,
                  current-fits r.input.rule_id last t.next_id t.rows b,
                ))
          | inr apart ↦ ground (
            arith,
            d,
            apart,
            current-retire rule id r.input.rule_id (at_of r) t.rows,
            retire-other rule last t.next_id id r.input.rule_id (at_of r) (current rule t.rows)
                (current-fits rule last t.next_id t.rows b),
          )
        ]
    | inr (inr d) ↦ ground (
      arith,
      d,
      decided-insert d,
      later,
      eq_iff r.input.rule_id rule,
      current-fits rule last t.next_id t.rows b,
    )
  ]

  promote-bounded :
      bounded last t.next_id t.rows ≡ true
      → last ≤ at_of r
      → let t' = (promote is_blank r.opens r.input r.now t).0 in
        bounded (at_of r) t'.next_id t'.rows ≡ true
  unfolding promote
  promote-bounded b later = elim (Decision-cases decided) [
    | inl (e, d) ↦ ground (arith, d, bounded-older last (at_of r) t.next_id t.rows later b)
    | inr (inl (id, d)) ↦ ground (
      arith,
      d,
      bounded-older last (at_of r) t.next_id t.rows later b,
      bounded-retire (at_of r) t.next_id id r.input.rule_id (at_of r) t.rows,
    )
    | inr (inr d) ↦ ground (arith, d, bounded_mono last (at_of r) t.next_id t.rows later b)
  ]

promote_all-climbs :
    (is_blank : String → Bool) (rule : String) (last : ℕ) (rs : List Request) (t : RuleTable)
    → bounded last t.next_id t.rows ≡ true
    → in_order last rs ≡ true
    → stage_of rule (promote_all is_blank t rs) ≡ climb_all is_blank rule (stage_of rule t) rs
unfolding promote_all climb_all
promote_all-climbs is_blank rule last [] t b ordered = refl
promote_all-climbs is_blank rule last (r ∷ rs) t b ordered =
    let later : last ≤ at_of r = ground (arith, ordered) in
    promote_all-climbs is_blank rule (at_of r) rs ((promote is_blank r.opens r.input r.now t).0)
      (promote-bounded is_blank rule last r t b later) (ground (arith, ordered))
    ∙ ap (λ s. climb_all is_blank rule s rs) (promote-climbs is_blank rule last r t b later)

-- Requests one after the other, whose instants never go back, keep one stage for each rule, whatever
-- happens to the other rules: the stage changes exactly by the requests for the rule that give evidence,
-- that the gate lets pass, and that the ladder allows from that stage.
pub promote_all_refines :
    (is_blank : String → Bool) (rule : String) (rs : List Request)
    → in_order 0 rs ≡ true
    → stage_of rule (promote_all is_blank empty_table rs) ≡ climb_all is_blank rule none rs
unfolding current
promote_all_refines is_blank rule rs ordered =
    promote_all-climbs is_blank rule 0 rs empty_table refl ordered
