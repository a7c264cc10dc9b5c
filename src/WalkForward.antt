-- ===== src/WalkForward.antt =====
-- src/backend/backtest/walk-forward.plan.ts, with requiredCandleCount of
-- src/backend/config/indicator.config.ts. Indices of bars are whole numbers. The validation ratio is
-- a fraction that the runtime multiplies and rounds down: `share len` stands for
-- `Math.floor(len * ratio)`. A finding carries its fold and kind; its `detail` text is left out.
use mathlib.Core.List.{reverse}
use buy_not_buy_com.Common.{
  ℕ, zero, suc, ◌+◌, ◌-◌, ◌*◌, ◌/◌, min, max, Bool, true, false, not, ◌&&◌, ◌||◌, Option, some,
  none, List, [], ◌∷◌, ◌++◌, ltb, leb, if◌then◌else◌,
}
pub mod Build
pub mod Audit
pub mod Judge
mod Tests

pub record IndicatorPeriods : Type 0 where
  pub ema_period : ℕ
  pub ema_warmup_multiplier : ℕ
  pub stochastic_period : ℕ
  pub momentum_period : ℕ
  pub macd_slow_period : ℕ
  pub macd_signal_period : ℕ
  pub rsi_period : ℕ
  pub atr_period : ℕ

pub required_candle_count : IndicatorPeriods → ℕ
required_candle_count c = max (c.ema_period * c.ema_warmup_multiplier) (
    max c.stochastic_period (
      max (c.momentum_period + 1) (
        max (c.macd_slow_period + c.macd_signal_period)
          (max (c.rsi_period + 1) (c.atr_period + 1)))))

pub record Window : Type 0 where
  pub start_index : ℕ
  pub end_index : ℕ

pub record FoldPlan : Type 0 where
  pub fold : ℕ
  pub train : Window
  pub validate : Window
  pub test : Window

pub record WalkForwardPlan : Type 0 where
  pub warmup : Window
  pub folds : List FoldPlan
  pub skipped_folds : ℕ

pub record PlanShape : Type 0 where
  pub fold_bars : ℕ
  pub training_bars : ℕ
  pub max_folds : ℕ

-- The ratio as the code uses it: whether it is refused (below 0, or 1 or more), and its share.
pub record ValidationRatio : Type 0 where
  pub is_refused : Bool
  pub share : ℕ → ℕ

abbrev pub window : ℕ → ℕ → Window
window s e = record { start_index = s; end_index = e }

-- `Math.floor(available / step)`, which is not positive where there are too few bars.
abbrev pub possible_folds : ℕ → ℕ → PlanShape → ℕ
possible_folds candle_count warmup_end shape =
    (candle_count - (warmup_end + 1 + shape.training_bars)) / shape.fold_bars

abbrev pub train_start_of : ℕ → PlanShape → ℕ → ℕ
train_start_of warmup_end shape train_end =
    max (warmup_end + 1) (train_end + 1 - shape.training_bars)

-- One round of the loop; the fold's number counts down from the newest.
pub plan_fold : (ℕ → ℕ) → ℕ → ℕ → PlanShape → ℕ → ℕ → FoldPlan
plan_fold share candle_count warmup_end shape number offset =
    let test_end = candle_count - 1 - offset * shape.fold_bars in
    let test_start = test_end + 1 - shape.fold_bars in
    let train_end = test_start - 1 in
    let train_start = train_start_of warmup_end shape train_end in
    let train_length = train_end + 1 - train_start in
    let validate_length = max 1 (share train_length) in
    let validate_start = train_end + 1 - validate_length in
    record {
      fold = number;
      train = window train_start (validate_start - 1);
      validate = window validate_start train_end;
      test = window test_start test_end;
    }

-- The condition of the `break`.
pub is_exhausted : ℕ → ℕ → PlanShape → ℕ → Bool
is_exhausted candle_count warmup_end shape offset =
    let test_end = candle_count - 1 - offset * shape.fold_bars in
    let test_start = test_end + 1 - shape.fold_bars in
    let train_end = test_start - 1 in
    ltb test_start (warmup_end + 1) || ltb train_end (train_start_of warmup_end shape train_end)

-- The loop, newest fold first, with the number of rounds left.
pub plan_folds : (ℕ → ℕ) → ℕ → ℕ → PlanShape → ℕ → ℕ → List FoldPlan
unfolding plan_fold is_exhausted
plan_folds share candle_count warmup_end shape zero offset = []
plan_folds share candle_count warmup_end shape (suc left) offset =
    let rest = plan_folds share candle_count warmup_end shape left (offset + 1) in
    if is_exhausted candle_count warmup_end shape offset
    then []
    else plan_fold share candle_count warmup_end shape (suc left) offset ∷ rest

-- What is built once the ratio is accepted.
pub accepted_plan : IndicatorPeriods → ℕ → PlanShape → ValidationRatio → WalkForwardPlan
accepted_plan periods candle_count shape ratio =
    let warmup_end = required_candle_count periods - 1 in
    let possible = possible_folds candle_count warmup_end shape in
    let fold_count = min possible shape.max_folds in
    record {
      warmup = window 0 warmup_end;
      folds = reverse (plan_folds ratio.share candle_count warmup_end shape fold_count 0);
      skipped_folds = possible - fold_count;
    }

-- `none` is the error that is thrown for a refused ratio.
pub build_walk_forward_plan :
    IndicatorPeriods → ℕ → PlanShape → ValidationRatio → Option WalkForwardPlan
build_walk_forward_plan periods candle_count shape ratio =
    if ratio.is_refused then none else some (accepted_plan periods candle_count shape ratio)

pub data FindingKind : Type 0 where
  test_overlaps_training validation_misplaced windows_overlap window_in_warmup : FindingKind
  window_past_data : FindingKind

pub record LeakageFinding : Type 0 where
  pub fold : ℕ
  pub kind : FindingKind

pub record LeakageAudit : Type 0 where
  pub findings : List LeakageFinding
  pub clean : Bool

pub overlaps : Window → Window → Bool
overlaps left right = leb left.start_index right.end_index && leb right.start_index left.end_index

-- A finding if the condition holds.
abbrev pub report : Bool → ℕ → FindingKind → List LeakageFinding
report true fold kind = record { fold = fold; kind = kind } ∷ []
report false fold kind = []

-- The checks of one window; `endIndex > candleCount - 1` over whole numbers.
pub audit_window : ℕ → Window → ℕ → Window → List LeakageFinding
audit_window fold warmup candle_count w =
    report (ltb w.end_index w.start_index) fold validation_misplaced
    ++ (report (overlaps w warmup) fold window_in_warmup
        ++ report (leb candle_count w.end_index) fold window_past_data)

pub audit_fold : Window → ℕ → FoldPlan → List LeakageFinding
audit_fold warmup candle_count f =
    audit_window f.fold warmup candle_count f.train
    ++ (audit_window f.fold warmup candle_count f.validate
        ++ (audit_window f.fold warmup candle_count f.test
            ++ (report (overlaps f.train f.validate) f.fold windows_overlap
                ++ (report (overlaps f.train f.test) f.fold windows_overlap
                    ++ (report (overlaps f.validate f.test) f.fold windows_overlap
                        ++ report (leb f.test.start_index f.train.end_index) f.fold
                            test_overlaps_training)))))

pub audit_folds : Window → ℕ → List FoldPlan → List LeakageFinding
audit_folds warmup candle_count [] = []
audit_folds warmup candle_count (f ∷ rest) =
    audit_fold warmup candle_count f ++ audit_folds warmup candle_count rest

abbrev pub is_empty : List LeakageFinding → Bool
is_empty [] = true
is_empty (f ∷ rest) = false

pub audit_walk_forward_plan : WalkForwardPlan → ℕ → LeakageAudit
audit_walk_forward_plan plan candle_count =
    let findings = audit_folds plan.warmup candle_count plan.folds in
    record { findings = findings; clean = is_empty findings }
