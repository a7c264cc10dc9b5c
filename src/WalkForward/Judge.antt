-- ===== src/WalkForward/Judge.antt =====
-- judgeFold: whether the parameters of a fold survived validation. `text_of` is `toFixed(4)` of the
-- runtime.
use Prim.Native.String.{String, ◌++◌ as append_text}
use buy_not_buy_com.Common.{ℕ, Bool, true, false, Option, some, if◌then◌else◌}
use buy_not_buy_com.Number.{Number}
use buy_not_buy_com.WalkForward.{FoldPlan}

pub record ValidationVerdict : Type 0 where
  pub fold : ℕ
  pub accepted : Bool
  pub reason : String

abbrev verdict : FoldPlan → Bool → String → ValidationVerdict
verdict f accepted reason = record { fold = f.fold; accepted = accepted; reason = reason }

module _ {N : Type 0} ⦃n : Number N⦄ (text_of : N → String) where
  open n use {sub, lt}

  pub judge_fold : FoldPlan → Option N → Option N → N → ValidationVerdict
  judge_fold f (some training) (some validation) tolerance =
      if lt validation (sub training tolerance)
      then verdict f false (
          append_text "на валидации " (
            append_text (text_of validation) (
              append_text " против " (
                append_text (text_of training)
                  " на обучении: край выбран по шуму обучающего окна"))))
      else verdict f true (
          append_text "на валидации " (
            append_text (text_of validation)
              (append_text " не хуже обучающих " (text_of training))))
  judge_fold f _ _ tolerance =
      verdict f false "не измерено: подбор или валидация не дали результата"
