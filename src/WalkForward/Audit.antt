-- ===== src/WalkForward/Audit.antt =====
-- What a clean audit means: no bar of the data is in two windows that must be apart.
use buy_not_buy_com.Common.{
  ℕ, ◌≤◌, ◌<◌, ◌≡◌, ◌↔◌, refl, max, Bool, true, false, List, [], ◌∷◌, ◌++◌, arith, All, leb,
}
use buy_not_buy_com.WalkForward.{
  Window, FoldPlan, WalkForwardPlan, LeakageFinding, overlaps, audit_window, audit_fold,
  audit_folds, audit_walk_forward_plan, report, is_empty, FindingKind, windows_overlap,
  test_overlaps_training,
}

-- The bar is one of the window's.
abbrev pub Holds : Window → ℕ → Type 0
Holds w i = (w.start_index ≤ i) × (i ≤ w.end_index)

abbrev pub IsDisjoint : Window → Window → Type 0
IsDisjoint a b = (i : ℕ) → Holds a i → ¬ (Holds b i)

-- A window has a bar, lies in the data, and has no bar of the warm-up.
pub record IsSound (warmup : Window) (candle_count : ℕ) (w : Window) : Type 0 where
  pub has_bar : w.start_index ≤ w.end_index
  pub in_data : w.end_index < candle_count
  pub past_warmup : IsDisjoint w warmup

pub record IsLeakFree (warmup : Window) (candle_count : ℕ) (f : FoldPlan) : Type 0 where
  pub train_sound : IsSound warmup candle_count f.train
  pub validate_sound : IsSound warmup candle_count f.validate
  pub test_sound : IsSound warmup candle_count f.test
  pub train_validate : IsDisjoint f.train f.validate
  pub train_test : IsDisjoint f.train f.test
  pub validate_test : IsDisjoint f.validate f.test
  pub test_after_train : f.train.end_index < f.test.start_index

overlaps-false : (a b : Window) → overlaps a b ≡ false → IsDisjoint a b
unfolding overlaps
overlaps-false a b h i p q = ground arith

disjoint-not_overlaps :
    (a b : Window)
    → a.start_index ≤ a.end_index
    → b.start_index ≤ b.end_index
    → IsDisjoint a b
    → overlaps a b ≡ false
unfolding overlaps
disjoint-not_overlaps a b p q d = ground (arith, d (max a.start_index b.start_index))

is_empty-append :
    (xs ys : List LeakageFinding)
    → (is_empty (xs ++ ys) ≡ true) ↔ ((is_empty xs ≡ true) × (is_empty ys ≡ true))
is_empty-append [] ys = ground arith
is_empty-append (x ∷ xs) ys = ground arith

audit_window-checks :
    (fold : ℕ) (warmup : Window) (candle_count : ℕ) (w : Window)
    → (is_empty (audit_window fold warmup candle_count w) ≡ true)
      ↔ ((w.start_index ≤ w.end_index) × (w.end_index < candle_count) × (overlaps w warmup ≡ false))
unfolding audit_window
audit_window-checks fold warmup count w = ground arith

audit_window-exact :
    (fold : ℕ) (warmup : Window) (candle_count : ℕ) (w : Window)
    → warmup.start_index ≤ warmup.end_index
    → (is_empty (audit_window fold warmup candle_count w) ≡ true) ↔ IsSound warmup candle_count w
audit_window-exact fold warmup count w h = (
  λ e.
      let (bar, inside, apart) = (audit_window-checks fold warmup count w).0 e in
      record { has_bar = bar; in_data = inside; past_warmup = overlaps-false w warmup apart },
  λ s.
      (audit_window-checks fold warmup count w).1
        (s.has_bar, s.in_data, disjoint-not_overlaps w warmup s.has_bar h s.past_warmup),
)

is_empty-report :
    (b : Bool) (f : ℕ) (k : FindingKind) → (is_empty (report b f k) ≡ true) ↔ (b ≡ false)
is_empty-report b f k = ground arith

audit_fold-checks :
    (warmup : Window) (candle_count : ℕ) (f : FoldPlan)
    → let window_clean =
        λ (w : Window). is_empty (audit_window f.fold warmup candle_count w) ≡ true in
      (is_empty (audit_fold warmup candle_count f) ≡ true) ↔ (
        window_clean f.train
        × window_clean f.validate
        × window_clean f.test
        × (overlaps f.train f.validate ≡ false)
        × (overlaps f.train f.test ≡ false)
        × (overlaps f.validate f.test ≡ false)
        × (f.train.end_index < f.test.start_index))
unfolding audit_fold
audit_fold-checks warmup count f =
    let train = audit_window f.fold warmup count f.train in
    let validate = audit_window f.fold warmup count f.validate in
    let test = audit_window f.fold warmup count f.test in
    let late = report (leb f.test.start_index f.train.end_index) f.fold test_overlaps_training in
    let third = report (overlaps f.validate f.test) f.fold windows_overlap ++ late in
    let second = report (overlaps f.train f.test) f.fold windows_overlap ++ third in
    let first = report (overlaps f.train f.validate) f.fold windows_overlap ++ second in
    ground (
      arith,
      is_empty-append train (validate ++ (test ++ first)),
      is_empty-append validate (test ++ first),
      is_empty-append test first,
      is_empty-append (report (overlaps f.train f.validate) f.fold windows_overlap) second,
      is_empty-append (report (overlaps f.train f.test) f.fold windows_overlap) third,
      is_empty-append (report (overlaps f.validate f.test) f.fold windows_overlap) late,
    )

audit_fold-exact :
    (warmup : Window) (candle_count : ℕ) (f : FoldPlan)
    → warmup.start_index ≤ warmup.end_index
    → (is_empty (audit_fold warmup candle_count f) ≡ true) ↔ IsLeakFree warmup candle_count f
audit_fold-exact warmup count f h = (
  λ e.
      let (t, v, s, tv, ts, vs, after) = (audit_fold-checks warmup count f).0 e in
      record {
        train_sound = (audit_window-exact f.fold warmup count f.train h).0 t;
        validate_sound = (audit_window-exact f.fold warmup count f.validate h).0 v;
        test_sound = (audit_window-exact f.fold warmup count f.test h).0 s;
        train_validate = overlaps-false f.train f.validate tv;
        train_test = overlaps-false f.train f.test ts;
        validate_test = overlaps-false f.validate f.test vs;
        test_after_train = after;
      },
  λ l.
      let train = l.train_sound.has_bar in
      let validate = l.validate_sound.has_bar in
      let test = l.test_sound.has_bar in
      (audit_fold-checks warmup count f).1 (
        (audit_window-exact f.fold warmup count f.train h).1 l.train_sound,
        (audit_window-exact f.fold warmup count f.validate h).1 l.validate_sound,
        (audit_window-exact f.fold warmup count f.test h).1 l.test_sound,
        disjoint-not_overlaps f.train f.validate train validate l.train_validate,
        disjoint-not_overlaps f.train f.test train test l.train_test,
        disjoint-not_overlaps f.validate f.test validate test l.validate_test,
        l.test_after_train,
      ),
)

audit_folds-exact :
    (warmup : Window) (candle_count : ℕ) (folds : List FoldPlan)
    → warmup.start_index ≤ warmup.end_index
    → (is_empty (audit_folds warmup candle_count folds) ≡ true)
      ↔ All (IsLeakFree warmup candle_count) folds
unfolding audit_folds
audit_folds-exact warmup count [] h = (λ e. tt, λ a. refl)
audit_folds-exact warmup count (f ∷ rest) h =
    let both = is_empty-append (audit_fold warmup count f) (audit_folds warmup count rest) in
    let one = audit_fold-exact warmup count f h in
    let more = audit_folds-exact warmup count rest h in
    (λ e. let (x, xs) = both.0 e in (one.0 x, more.0 xs), λ (l, ls). both.1 (one.1 l, more.1 ls))

-- For a warm-up of at least one bar, an audit is clean exactly if in every fold each of the three
-- windows has a bar, lies within the data and shares no bar with the warm-up, no two of them share a
-- bar, and the test window begins after the training window ends.
pub audit_walk_forward_plan_exact :
    (plan : WalkForwardPlan) (candle_count : ℕ)
    → plan.warmup.start_index ≤ plan.warmup.end_index
    → ((audit_walk_forward_plan plan candle_count).clean ≡ true)
      ↔ All (IsLeakFree plan.warmup candle_count) plan.folds
unfolding audit_walk_forward_plan
audit_walk_forward_plan_exact plan count h = audit_folds-exact plan.warmup count plan.folds h
