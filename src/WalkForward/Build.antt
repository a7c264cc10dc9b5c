-- ===== src/WalkForward/Build.antt =====
-- The plan that is built: its folds tile the newest bars, and its audit is clean.
use mathlib.Core.List.{reverse, reverse-append}
use buy_not_buy_com.Common.{
  ℕ, zero, suc, ◌+◌, ◌-◌, ◌*◌, ◌/◌, ◌≤◌, ◌<◌, ◌≡◌, refl, ap, ◌∙◌, min, max, true, false, some, List,
  [], ◌∷◌, ◌++◌, arith, All, length, length-append,
}
use buy_not_buy_com.WalkForward.{
  FoldPlan, PlanShape, WalkForwardPlan, ValidationRatio, IndicatorPeriods, plan_fold, is_exhausted,
  plan_folds, possible_folds, build_walk_forward_plan, accepted_plan, required_candle_count,
  audit_walk_forward_plan, window,
}
use buy_not_buy_com.WalkForward.Audit.{IsLeakFree, audit_walk_forward_plan_exact}

-- The windows of a fold in a row: after the warm-up, and with the test window at its place.
pub record IsTidy (candle_count warmup_end start step : ℕ) (f : FoldPlan) : Type 0 where
  pub after_warmup : warmup_end < f.train.start_index
  pub train_bar : f.train.start_index ≤ f.train.end_index
  pub train_validate : f.train.end_index < f.validate.start_index
  pub validate_bar : f.validate.start_index ≤ f.validate.end_index
  pub validate_test : f.validate.end_index < f.test.start_index
  pub test_start : f.test.start_index ≡ start
  pub test_end : f.test.end_index + 1 ≡ start + step
  pub in_data : start + step ≤ candle_count

-- Folds, oldest first, whose test windows follow one another from `start` on.
abbrev pub IsTiling : ℕ → ℕ → ℕ → ℕ → List FoldPlan → Type 0
IsTiling candle_count warmup_end step start [] = Unit
IsTiling candle_count warmup_end step start (f ∷ rest) =
    IsTidy candle_count warmup_end start step f
    × IsTiling candle_count warmup_end step (start + step) rest

mul-le_of_le-div : (k d s : ℕ) → 0 < s → k ≤ d / s → (k * s ≤ d)
mul-le_of_le-div k d s h e = grind arith

module _ (share : ℕ → ℕ) (share-lt : (len : ℕ) → 0 < len → share len < len)
    (candle_count warmup_end : ℕ) (shape : PlanShape) (step_pos : 0 < shape.fold_bars)
    (training : 2 ≤ shape.training_bars) where
  plan_fold-IsTidy :
      (number offset : ℕ)
      → warmup_end + 1 + shape.training_bars + (offset + 1) * shape.fold_bars ≤ candle_count
      → IsTidy candle_count warmup_end
          (candle_count - (offset + 1) * shape.fold_bars)
          shape.fold_bars
          (plan_fold share candle_count warmup_end shape number offset)
  unfolding plan_fold
  plan_fold-IsTidy number offset fits =
      let train_end = candle_count - 1 - offset * shape.fold_bars + 1 - shape.fold_bars - 1 in
      let len = train_end + 1 - max (warmup_end + 1) (train_end + 1 - shape.training_bars) in
      let whole : len ≡ shape.training_bars = omega arith in
      let less = share-lt len (omega arith) in omega arith

  not_exhausted :
      (offset : ℕ)
      → warmup_end + 1 + shape.training_bars + (offset + 1) * shape.fold_bars ≤ candle_count
      → is_exhausted candle_count warmup_end shape offset ≡ false
  unfolding is_exhausted
  not_exhausted offset fits = ground arith

  IsTiling-snoc :
      (start : ℕ) (folds : List FoldPlan) (f : FoldPlan)
      → IsTiling candle_count warmup_end shape.fold_bars start folds
      → IsTidy candle_count warmup_end (start + length folds * shape.fold_bars) shape.fold_bars f
      → IsTiling candle_count warmup_end shape.fold_bars start (folds ++ (f ∷ []))
  IsTiling-snoc start [] f t h = (omega arith, tt)
  IsTiling-snoc start (g ∷ rest) f (t, ts) h =
      (t, IsTiling-snoc (start + shape.fold_bars) rest f ts (omega arith))

  planned :
      (left offset : ℕ)
      → warmup_end + 1 + shape.training_bars + (offset + 1) * shape.fold_bars ≤ candle_count
      → plan_folds share candle_count warmup_end shape (suc left) offset
        ≡ plan_fold share candle_count warmup_end shape (suc left) offset
          ∷ plan_folds share candle_count warmup_end shape left (offset + 1)
  unfolding plan_folds plan_fold
  planned left offset fits = rw (not_exhausted offset fits, plan_folds)

  plan_folds-zero : (offset : ℕ) → plan_folds share candle_count warmup_end shape zero offset ≡ []
  unfolding plan_folds
  plan_folds-zero offset = refl

  plan_folds-suc :
      (left offset : ℕ)
      → warmup_end + 1 + shape.training_bars + (offset + 1) * shape.fold_bars ≤ candle_count
      → reverse (plan_folds share candle_count warmup_end shape (suc left) offset)
        ≡ reverse (plan_folds share candle_count warmup_end shape left (offset + 1))
          ++ (plan_fold share candle_count warmup_end shape (suc left) offset ∷ [])
  plan_folds-suc left offset fits =
      ap reverse (planned left offset fits)
      ∙ reverse-append (plan_fold share candle_count warmup_end shape (suc left) offset ∷ [])
          (plan_folds share candle_count warmup_end shape left (offset + 1))

  plan_folds-grow :
      (left offset start : ℕ)
      → warmup_end + 1 + shape.training_bars + (offset + 1) * shape.fold_bars ≤ candle_count
      → start + (offset + suc left) * shape.fold_bars ≡ candle_count
      → let rest = reverse (plan_folds share candle_count warmup_end shape left (offset + 1)) in
        (length rest ≡ left) × IsTiling candle_count warmup_end shape.fold_bars start rest
        → let folds = reverse (plan_folds share candle_count warmup_end shape (suc left) offset) in
          (length folds ≡ suc left) × IsTiling candle_count warmup_end shape.fold_bars start folds
  plan_folds-grow left offset start fits place (count, tiling) =
      let rest = reverse (plan_folds share candle_count warmup_end shape left (offset + 1)) in
      let f = plan_fold share candle_count warmup_end shape (suc left) offset in
      let tidy = plan_fold-IsTidy (suc left) offset fits in
      let here : candle_count - (offset + 1) * shape.fold_bars
          ≡ start + length rest * shape.fold_bars =
        rw count (omega arith) in
      rw (plan_folds-suc left offset fits) (
        omega (arith, length-append rest (f ∷ [])),
        IsTiling-snoc start rest f tiling (rw here at tidy),
      )

  plan_folds-IsTiling :
      (left offset start : ℕ)
      → warmup_end + 1 + shape.training_bars ≤ start
      → start + (offset + left) * shape.fold_bars ≡ candle_count
      → let folds = reverse (plan_folds share candle_count warmup_end shape left offset) in
        (length folds ≡ left) × IsTiling candle_count warmup_end shape.fold_bars start folds
  plan_folds-IsTiling zero offset start room place = rw (plan_folds-zero offset) (refl, tt)
  plan_folds-IsTiling (suc left) offset start room place =
      plan_folds-grow left offset start (grind arith) place
        (plan_folds-IsTiling left (offset + 1) start room (omega arith))

  planned-IsTiling :
      (count : ℕ)
      → count ≤ possible_folds candle_count warmup_end shape
      → let folds = reverse (plan_folds share candle_count warmup_end shape count 0) in
        (length folds ≡ count)
        × IsTiling candle_count warmup_end shape.fold_bars
            (candle_count - count * shape.fold_bars)
            folds
  planned-IsTiling zero h = rw (plan_folds-zero 0) (refl, tt)
  planned-IsTiling (suc k) h =
      let room =
        mul-le_of_le-div (suc k) (candle_count - (warmup_end + 1 + shape.training_bars))
          shape.fold_bars step_pos h in
      plan_folds-IsTiling (suc k) 0 (candle_count - suc k * shape.fold_bars) (grind arith)
        (grind arith)

  IsTidy-IsLeakFree :
      (start : ℕ) (f : FoldPlan)
      → IsTidy candle_count warmup_end start shape.fold_bars f
      → IsLeakFree (window 0 warmup_end) candle_count f
  IsTidy-IsLeakFree start f t = record {
    train_sound = record {
      has_bar = omega arith;
      in_data = omega arith;
      past_warmup = omega arith;
    };
    validate_sound = record {
      has_bar = omega arith;
      in_data = omega arith;
      past_warmup = omega arith;
    };
    test_sound = record { has_bar = omega arith; in_data = omega arith; past_warmup = omega arith };
    train_validate = omega arith;
    train_test = omega arith;
    validate_test = omega arith;
    test_after_train = omega arith;
  }

  IsTiling-IsLeakFree :
      (start : ℕ) (folds : List FoldPlan)
      → IsTiling candle_count warmup_end shape.fold_bars start folds
      → All (IsLeakFree (window 0 warmup_end) candle_count) folds
  IsTiling-IsLeakFree start [] t = tt
  IsTiling-IsLeakFree start (f ∷ rest) (t, ts) =
      (IsTidy-IsLeakFree start f t, IsTiling-IsLeakFree (start + shape.fold_bars) rest ts)

-- What a ratio that is not refused does: less than the whole is held back.
abbrev pub IsProper : ValidationRatio → Type 0
IsProper ratio = (len : ℕ) → 0 < len → ratio.share len < len

built :
    (periods : IndicatorPeriods) (candle_count : ℕ) (shape : PlanShape) (ratio : ValidationRatio)
    {plan : WalkForwardPlan}
    → build_walk_forward_plan periods candle_count shape ratio ≡ some plan
    → accepted_plan periods candle_count shape ratio ≡ plan
unfolding build_walk_forward_plan
built periods count shape ratio e = ground arith

accepted_plan_tiles :
    (periods : IndicatorPeriods) (candle_count : ℕ) (shape : PlanShape) (ratio : ValidationRatio)
    → 0 < shape.fold_bars
    → 2 ≤ shape.training_bars
    → IsProper ratio
    → let plan = accepted_plan periods candle_count shape ratio in
      let warmup_end = plan.warmup.end_index in
      let count = min (possible_folds candle_count warmup_end shape) shape.max_folds in
      (length plan.folds ≡ count)
      × IsTiling candle_count warmup_end shape.fold_bars
          (candle_count - count * shape.fold_bars)
          plan.folds
unfolding accepted_plan
accepted_plan_tiles periods count shape ratio h k proper =
    planned-IsTiling ratio.share proper count (required_candle_count periods - 1) shape h k
      (min (possible_folds count (required_candle_count periods - 1) shape) shape.max_folds)
      (omega arith)

accepted_plan_clean :
    (periods : IndicatorPeriods) (candle_count : ℕ) (shape : PlanShape) (ratio : ValidationRatio)
    → 0 < shape.fold_bars
    → 2 ≤ shape.training_bars
    → IsProper ratio
    → (audit_walk_forward_plan (accepted_plan periods candle_count shape ratio) candle_count).clean
      ≡ true
accepted_plan_clean periods count shape ratio h k proper =
    (audit_walk_forward_plan_exact (accepted_plan periods count shape ratio) count
        (unfold accepted_plan in omega arith)).1
      (unfold accepted_plan in
        IsTiling-IsLeakFree ratio.share proper count (required_candle_count periods - 1) shape h k _
          _ (accepted_plan_tiles periods count shape ratio h k proper).1)

-- For folds of at least one bar, a training span of at least two and a ratio that holds back less
-- than the whole, the plan has as many folds as fit and are asked for; oldest first, their test
-- windows follow one another up to the last candle; and each fold has its windows in the order
-- warm-up, training, validation, test, none of them empty. A ratio of zero is among these: at least
-- one bar is held back for validation there too.
pub build_walk_forward_plan_tiles :
    (periods : IndicatorPeriods) (candle_count : ℕ) (shape : PlanShape) (ratio : ValidationRatio)
    {plan : WalkForwardPlan}
    → 0 < shape.fold_bars
    → 2 ≤ shape.training_bars
    → IsProper ratio
    → build_walk_forward_plan periods candle_count shape ratio ≡ some plan
    → let warmup_end = plan.warmup.end_index in
      let count = min (possible_folds candle_count warmup_end shape) shape.max_folds in
      (length plan.folds ≡ count)
      × IsTiling candle_count warmup_end shape.fold_bars
          (candle_count - count * shape.fold_bars)
          plan.folds
build_walk_forward_plan_tiles periods count shape ratio h k proper e =
    rw (← built periods count shape ratio e)
      (accepted_plan_tiles periods count shape ratio h k proper)

-- For folds of at least one bar, a training span of at least two and a ratio that holds back less
-- than the whole, a built plan passes its own audit.
pub build_walk_forward_plan_clean :
    (periods : IndicatorPeriods) (candle_count : ℕ) (shape : PlanShape) (ratio : ValidationRatio)
    {plan : WalkForwardPlan}
    → 0 < shape.fold_bars
    → 2 ≤ shape.training_bars
    → IsProper ratio
    → build_walk_forward_plan periods candle_count shape ratio ≡ some plan
    → (audit_walk_forward_plan plan candle_count).clean ≡ true
build_walk_forward_plan_clean periods count shape ratio h k proper e =
    rw (← built periods count shape ratio e)
      (accepted_plan_clean periods count shape ratio h k proper)
