-- ===== src/Consensus/Panel.antt =====
-- The panel is a partition of the analyses.
use mathlib.Core.List.{Perm, perm_middle, append_assoc}
use mathlib.Core.List.Perm
use buy_not_buy_com.Common.{
  ◌≡◌, ◌≢◌, refl, Bool, true, false, not, ◌&&◌, List, [], ◌∷◌, ◌++◌, arith, filter, if◌then◌else◌,
}
use buy_not_buy_com.Consensus.{
  IndicatorSignal, IndicatorAnalysis, long, short, neutral, same_signal, partition_panel,
}

abbrev just_one : Bool → Bool → Bool → Bool
just_one true false false = true
just_one false true false = true
just_one false false true = true
just_one _ _ _ = false

perm-place :
    {A : Type 0} (x : A) (p q r : Bool) (ps qs rs all : List A)
    → just_one p q r ≡ true
    → Perm (ps ++ (qs ++ rs)) all
    → Perm
        ((if p then x ∷ ps else ps) ++ ((if q then x ∷ qs else qs) ++ (if r then x ∷ rs else rs)))
        (x ∷ all)
perm-place x true false false ps qs rs all h k = Perm.cons x k
perm-place x false true false ps qs rs all h k =
    Perm.trans (perm_middle ps (qs ++ rs)) (Perm.cons x k)
perm-place x false false true ps qs rs all h k =
    let k' : Perm ((ps ++ qs) ++ rs) all = rw append_assoc k in
    rw (← append_assoc ps qs (x ∷ rs)) (Perm.trans (perm_middle (ps ++ qs) rs) (Perm.cons x k'))
perm-place x true true r ps qs rs all h k = cc
perm-place x true false true ps qs rs all h k = cc
perm-place x false true true ps qs rs all h k = cc
perm-place x false false false ps qs rs all h k = cc

module _ {N : Type 0} where
  abbrev supports : IndicatorSignal → IndicatorAnalysis N → Bool
  supports d a = same_signal a.signal d

  abbrev opposes : IndicatorSignal → IndicatorAnalysis N → Bool
  opposes d a = not (same_signal a.signal d) && not (same_signal a.signal neutral)

  abbrev abstains : IndicatorAnalysis N → Bool
  abstains a = same_signal a.signal neutral

  votes_once :
      (d : IndicatorSignal) (a : IndicatorAnalysis N)
      → d ≢ neutral
      → just_one (supports d a) (opposes d a) (abstains a) ≡ true
  votes_once d a h = ground arith

  panel-perm :
      (d : IndicatorSignal) (analyses : List (IndicatorAnalysis N))
      → d ≢ neutral
      → Perm
          (filter (supports d) analyses
            ++ (filter (opposes d) analyses ++ filter abstains analyses))
          analyses
  panel-perm d [] h = Perm.refl []
  panel-perm d (a ∷ rest) h =
      perm-place a (supports d a) (opposes d a) (abstains a) _ _ _ rest (votes_once d a h)
        (panel-perm d rest h)

  -- For a direction that is not NEUTRAL, supporting, opposing and abstaining analyses together are
  -- the whole panel, each analysis in one part and as often as it was given.
  pub partition_panel-perm :
      (d : IndicatorSignal) (analyses : List (IndicatorAnalysis N))
      → d ≢ neutral
      → let p = partition_panel analyses d in
        Perm (p.supporting ++ (p.opposing ++ p.abstaining)) analyses
  unfolding partition_panel
  partition_panel-perm long analyses h = panel-perm long analyses h
  partition_panel-perm short analyses h = panel-perm short analyses h
  partition_panel-perm neutral analyses h = absurd (h refl)
