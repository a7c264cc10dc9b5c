-- ===== src/Stage3/Margin/Verdict/Breach.antt =====
-- When a maintenance verdict is published, and when it says that there is a breach.
use mathlib.Core.Path.{subst}
use buy_not_buy_com.Common.{
  ◌+◌, ◌<◌, ◌≡◌, ◌↔◌, refl, ap, Bool, true, false, some, List, [], ◌∷◌, ◌++◌, if◌then◌else◌, arith,
}
use buy_not_buy_com.Common.Int.{ℤ, pos, ◌*ℤ◌, ◌≤ℤ◌, pos_part, neg_part}
use buy_not_buy_com.Stage3.{RationalParts, compare_rationals}
use buy_not_buy_com.Stage3.Margin.{
  Reason, Result, valid, not_applicable, calculation_error, Comparison, lt, lte, LinearModelInput,
  calculate_pnl_equity, calculate_margin_requirements,
}
use buy_not_buy_com.Stage3.Margin.Verdict.{
  MaintenanceVerdict, is_detected, includes, or_error, classification, add_reasons, reasons_of,
  verdict_publication, calculate_maintenance_verdict,
}

abbrev pub is_empty : List Reason → Bool
is_empty [] = true
is_empty (r ∷ rs) = false

append_filled :
    (b : Bool) (r : Reason) (rs : List Reason)
    → is_empty rs ≡ false
    → is_empty (if b then rs else rs ++ r ∷ []) ≡ false
append_filled true r rs h = h
append_filled false r [] h = refl
append_filled false r (x ∷ rs) h = refl

add_reasons-filled :
    (rs more : List Reason) → is_empty rs ≡ false → is_empty (add_reasons rs more) ≡ false
unfolding add_reasons
add_reasons-filled rs [] h = h
add_reasons-filled rs (r ∷ more) h =
    add_reasons-filled (if includes r rs then rs else rs ++ r ∷ []) more
      (append_filled (includes r rs) r rs h)

add_reasons-empty :
    (rs more : List Reason)
    → is_empty (add_reasons rs more) ≡ true
    → (is_empty rs ≡ true) × (is_empty more ≡ true)
unfolding add_reasons
add_reasons-empty [] [] h = (refl, refl)
add_reasons-empty [] (r ∷ more) h = grind (arith, h, add_reasons-filled (r ∷ []) more refl)
add_reasons-empty (r ∷ rs) more h = grind (arith, h, add_reasons-filled (r ∷ rs) more refl)

or_error-valid :
    (rs : List Reason) (exact : Result MaintenanceVerdict) (v : MaintenanceVerdict)
    → or_error rs exact ≡ valid v
    → (is_empty rs ≡ true) × (exact ≡ valid v)
or_error-valid [] exact v h = (refl, h)
or_error-valid (r ∷ rs) exact v h = ground arith

-- The equity is below the maintenance margin, or not above it, as exact fractions.
infix 50 ◌<ℤ◌
abbrev ◌<ℤ◌ : ℤ → ℤ → Type 0
a <ℤ b = pos_part a + neg_part b < pos_part b + neg_part a

abbrev pub Breaches : Comparison → RationalParts → RationalParts → Type 0
Breaches lt e m = e.numerator *ℤ pos m.denominator <ℤ m.numerator *ℤ pos e.denominator
Breaches lte e m = e.numerator *ℤ pos m.denominator ≤ℤ m.numerator *ℤ pos e.denominator

is_detected-Breaches :
    (c : Comparison) (e m : RationalParts)
    → (is_detected c (compare_rationals e m) ≡ true) ↔ Breaches c e m
unfolding compare_rationals
is_detected-Breaches lt e m = ground arith
is_detected-Breaches lte e m = ground arith

abbrev detected_of : Result MaintenanceVerdict → Bool
detected_of (valid v) = v.detected
detected_of (not_applicable r) = false
detected_of (calculation_error r rs) = false

classification-valid :
    (equity maintenance : Result RationalParts) (c : Comparison) (v : MaintenanceVerdict)
    → classification equity maintenance c ≡ valid v
    → (e : RationalParts) × (m : RationalParts) × (equity ≡ valid e)
      × (maintenance ≡ valid m)
      × ((v.detected ≡ true) ↔ Breaches c e m)
unfolding classification
classification-valid (valid e) (valid m) c v h = (
  e,
  m,
  refl,
  refl,
  subst (λ b. (b ≡ true) ↔ Breaches c e m) (ap detected_of h) (is_detected-Breaches c e m),
)
classification-valid (valid e) (not_applicable r) c v h = ground arith
classification-valid (valid e) (calculation_error r rs) c v h = ground arith
classification-valid (not_applicable r) m c v h = ground arith
classification-valid (calculation_error r rs) m c v h = ground arith

-- A verdict is published only if the exact equity and the exact maintenance margin exist and both are
-- published; and it says that there is a breach exactly if the exact equity is below the exact
-- margin, or, where the policy has it so, equal to it.
pub published_verdict_exact :
    (i : LinearModelInput) (v : MaintenanceVerdict)
    → (calculate_maintenance_verdict (some i)).maintenance ≡ valid v
    → let p = calculate_pnl_equity (some i) in
      let r = calculate_margin_requirements (some i) in
      (e : RationalParts) × (m : RationalParts) × (p.exact_equity ≡ valid e)
      × (r.exact_maintenance ≡ valid m)
      × ((v.detected ≡ true) ↔ Breaches i.comparison e m)
      × (is_empty (reasons_of p.equity) ≡ true)
      × (is_empty (reasons_of r.maintenance) ≡ true)
unfolding calculate_maintenance_verdict verdict_publication
published_verdict_exact i v h =
    let p = calculate_pnl_equity (some i) in
    let r = calculate_margin_requirements (some i) in
    let exact = classification p.exact_equity r.exact_maintenance i.comparison in
    let first = add_reasons [] (reasons_of p.equity) in
    let second = add_reasons first (reasons_of r.maintenance) in
    let (none_left, same) = or_error-valid (add_reasons second (reasons_of exact)) exact v h in
    let (none_second, _) = add_reasons-empty second (reasons_of exact) none_left in
    let (none_first, none_margin) =
      add_reasons-empty first (reasons_of r.maintenance) none_second in
    let (_, none_equity) = add_reasons-empty [] (reasons_of p.equity) none_first in
    let (e, m, is_e, is_m, breach) =
      classification-valid p.exact_equity r.exact_maintenance i.comparison v same in
    (e, m, is_e, is_m, breach, none_equity, none_margin)
