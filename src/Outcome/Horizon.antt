-- ===== src/Outcome/Horizon.antt =====
-- When a horizon is measured, and what it then says.
use buy_not_buy_com.Common.{
  ℕ, zero, suc, ◌≤◌, ◌<◌, ◌≡◌, refl, ◌∙◌, Bool, some, none, List, [], ◌∷◌, ◌++◌, arith, length,
  if◌then◌else◌, take-append,
}
use buy_not_buy_com.Number.{Number}
use buy_not_buy_com.CandleSeries.{Candle}
use buy_not_buy_com.Outcome.{
  Direction, last_of, is_empty, unmeasured, measured, measure_horizon, unknown, expired, verdict_of,
  forward_fraction,
}

module _ {ℓ} {A : Type ℓ} where
  last_of-none : (bars : ℕ) (xs : List A) → 0 < bars → length xs < bars → last_of bars xs ≡ none
  last_of-none zero xs h k = elim h [ ]
  last_of-none (suc zero) [] h k = refl
  last_of-none (suc zero) (x ∷ xs) h k = absurd (omega arith)
  last_of-none (suc (suc b)) [] h k = refl
  last_of-none (suc (suc b)) (x ∷ xs) h k = last_of-none (suc b) xs (omega arith) (omega arith)

  last_of-some :
      (bars : ℕ) (xs : List A) → 0 < bars → bars ≤ length xs → (a : A) × (last_of bars xs ≡ some a)
  last_of-some zero xs h k = elim h [ ]
  last_of-some (suc b) [] h k = absurd (omega arith)
  last_of-some (suc zero) (x ∷ xs) h k = (x, refl)
  last_of-some (suc (suc b)) (x ∷ xs) h k = last_of-some (suc b) xs (omega arith) (omega arith)

  last_of-append :
      (bars : ℕ) (xs ys : List A)
      → 0 < bars
      → bars ≤ length xs
      → last_of bars (xs ++ ys) ≡ last_of bars xs
  last_of-append zero xs ys h k = elim h [ ]
  last_of-append (suc b) [] ys h k = absurd (omega arith)
  last_of-append (suc zero) (x ∷ xs) ys h k = refl
  last_of-append (suc (suc b)) (x ∷ xs) ys h k =
      last_of-append (suc b) xs ys (omega arith) (omega arith)

module _ {N : Type 0} ⦃n : Number N⦄ (direction : Direction) (price breakeven : N)
    (track : Bool) where
  unmeasured_lem :
      (forward : List (Candle N)) (bars : ℕ)
      → last_of bars forward ≡ none
      → measure_horizon direction price breakeven track forward bars ≡ unmeasured forward bars
  unfolding measure_horizon
  unmeasured_lem forward bars e = rw (e, measure_horizon)

  measured_lem :
      (forward : List (Candle N)) (bars : ℕ) (c : Candle N)
      → last_of bars forward ≡ some c
      → measure_horizon direction price breakeven track forward bars
        ≡ measured direction price breakeven track forward bars c
  unfolding measure_horizon
  measured_lem forward bars c e = rw (e, measure_horizon)

  -- A horizon of at least one bar that is not over yet has no numbers, and is `expired` if no bar
  -- followed the signal and `unknown` otherwise.
  pub measure_horizon_open :
      (forward : List (Candle N)) (bars : ℕ)
      → 0 < bars
      → length forward < bars
      → let h = measure_horizon direction price breakeven track forward bars in
        (h.return_fraction ≡ none)
        × (h.max_favourable ≡ none)
        × (h.max_adverse ≡ none)
        × (h.verdict ≡ (if is_empty forward then expired else unknown))
  unfolding unmeasured
  measure_horizon_open forward bars h k =
      rw (unmeasured_lem forward bars (last_of-none bars forward h k)) (refl, refl, refl, refl)

  -- A horizon of at least one bar that is over is measured at the bar that ends it, `bars` bars
  -- after the signal, with the verdict of the return there.
  pub measure_horizon_closed :
      (forward : List (Candle N)) (bars : ℕ)
      → 0 < bars
      → bars ≤ length forward
      → let h = measure_horizon direction price breakeven track forward bars in
        (c : Candle N) × (last_of bars forward ≡ some c)
        × (h.return_fraction ≡ some (forward_fraction direction price c.close))
        × (h.verdict ≡ verdict_of (forward_fraction direction price c.close) breakeven)
  unfolding measured
  measure_horizon_closed forward bars h k =
      let (c, e) = last_of-some bars forward h k in
      (c, e, rw (measured_lem forward bars c e), rw (measured_lem forward bars c e))

  -- A measured horizon of at least one bar never changes: bars that come later leave every number of
  -- it as it was.
  pub measure_horizon_final :
      (forward later : List (Candle N)) (bars : ℕ)
      → 0 < bars
      → bars ≤ length forward
      → measure_horizon direction price breakeven track (forward ++ later) bars
        ≡ measure_horizon direction price breakeven track forward bars
  unfolding measured
  measure_horizon_final forward later bars h k =
      let (c, e) = last_of-some bars forward h k in
      let e' = last_of-append bars forward later h k ∙ e in
      rw (
        measured_lem forward bars c e,
        measured_lem (forward ++ later) bars c e',
        take-append bars forward later k,
      )
