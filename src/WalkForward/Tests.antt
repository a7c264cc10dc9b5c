-- ===== src/WalkForward/Tests.antt =====
-- A plan over two hundred candles.
use buy_not_buy_com.Common.{
  ◌*◌, ◌/◌, ◌≡◌, ◌↔◌, refl, true, false, some, List, [], ◌∷◌, arith, All, length,
}
use buy_not_buy_com.WalkForward.{
  IndicatorPeriods, PlanShape, ValidationRatio, WalkForwardPlan, FoldPlan, window,
  build_walk_forward_plan, accepted_plan, audit_walk_forward_plan, required_candle_count,
  plan_folds, plan_fold, is_exhausted,
}
use buy_not_buy_com.WalkForward.Audit.{IsLeakFree, audit_walk_forward_plan_exact}
use buy_not_buy_com.WalkForward.Build.{
  IsTiling, build_walk_forward_plan_tiles, build_walk_forward_plan_clean,
}

abbrev periods : IndicatorPeriods
periods = record {
  ema_period = 20;
  ema_warmup_multiplier = 3;
  stochastic_period = 14;
  momentum_period = 10;
  macd_slow_period = 26;
  macd_signal_period = 9;
  rsi_period = 14;
  atr_period = 14;
}

abbrev shape : PlanShape
shape = record { fold_bars = 30; training_bars = 50; max_folds = 10 }

-- 3/10 of the span, rounded down.
abbrev ratio : ValidationRatio
ratio = record { is_refused = false; share = λ len. len * 3 / 10 }

abbrev folds : List FoldPlan
folds =
    record { fold = 1; train = window 60 94; validate = window 95 109; test = window 110 139 }
    ∷ record { fold = 2; train = window 90 124; validate = window 125 139; test = window 140 169 }
    ∷ record { fold = 3; train = window 120 154; validate = window 155 169; test = window 170 199 }
    ∷ []

abbrev plan : WalkForwardPlan
plan = record { warmup = window 0 59; folds = folds; skipped_folds = 0 }

planned : build_walk_forward_plan periods 200 shape ratio ≡ some plan
unfolding build_walk_forward_plan accepted_plan required_candle_count plan_folds plan_fold
    is_exhausted
planned = refl

build_walk_forward_plan_tiles_example : (length folds ≡ 3) × IsTiling 200 59 30 110 folds
build_walk_forward_plan_tiles_example =
    build_walk_forward_plan_tiles periods 200 shape ratio (omega arith) (omega arith)
      (λ len h. omega arith) planned

build_walk_forward_plan_clean_example : (audit_walk_forward_plan plan 200).clean ≡ true
build_walk_forward_plan_clean_example =
    build_walk_forward_plan_clean periods 200 shape ratio (omega arith) (omega arith)
      (λ len h. omega arith) planned

audit_walk_forward_plan_exact_example :
    ((audit_walk_forward_plan plan 200).clean ≡ true) ↔ All (IsLeakFree (window 0 59) 200) folds
audit_walk_forward_plan_exact_example = audit_walk_forward_plan_exact plan 200 (omega arith)
