-- ===== src/Extrema/Rounds.antt =====
-- The rounds of the loop: as many as there are values are enough.
use buy_not_buy_com.Common.{
  ℕ, zero, suc, ◌+◌, ◌-◌, ◌≤◌, ◌<◌, ◌≡◌, refl, Bool, Option, some, none, List, [], ◌∷◌, length,
  get_elem?, arith,
}
use buy_not_buy_com.Number.{Number}
use buy_not_buy_com.Extrema.{plateau_end, extremum_at, extrema_from}

module _ {ℓ} {A : Type ℓ} where
  get_elem?-past : (xs : List A) (i : ℕ) → length xs ≤ i → get_elem? xs i ≡ none
  get_elem?-past [] i h = refl
  get_elem?-past (x ∷ xs) zero h = ground (arith, h)
  get_elem?-past (x ∷ xs) (suc i) h = get_elem?-past xs i (omega (arith, h))

module _ {N : Type 0} ⦃n : Number N⦄ (values : List N) where
  plateau_end-grows : (current : N) (left end : ℕ) → end ≤ plateau_end values current left end
  unfolding plateau_end
  plateau_end-grows current zero end = omega arith
  plateau_end-grows current (suc left) end =
      ground (arith, plateau_end-grows current left (end + 1))

  after_index :
      (left right : ℕ) (want_higher : Bool) (index : ℕ) (current : N)
      → index < (extremum_at values left right want_higher index current).1
  unfolding extremum_at
  after_index left right want_higher index current =
      omega (arith, plateau_end-grows current (length values - 1 - index) index)

  -- Two runs with rounds enough, one for each value that is left, find the same points.
  pub rounds_enough :
      (left right : ℕ) (want_higher : Bool) (rounds others index : ℕ) (o : Option N)
      → get_elem? values index ≡ o
      → length values ≤ rounds + index
      → length values ≤ others + index
      → extrema_from values left right want_higher rounds index
        ≡ extrema_from values left right want_higher others index
  unfolding extrema_from
  rounds_enough left right want_higher zero zero index o e h k = refl
  rounds_enough left right want_higher zero (suc others) index o e h k =
      ground (arith, get_elem?-past values index (omega (arith, h)))
  rounds_enough left right want_higher (suc rounds) zero index o e h k =
      ground (arith, get_elem?-past values index (omega (arith, k)))
  rounds_enough left right want_higher (suc rounds) (suc others) index none e h k =
      ground (arith, e)
  rounds_enough left right want_higher (suc rounds) (suc others) index (some current) e h k =
      let next = (extremum_at values left right want_higher index current).1 in
      let later = after_index left right want_higher index current in
      ground (
        arith,
        e,
        rounds_enough left right want_higher rounds others next (get_elem? values next) refl
            (omega (arith, h, later)) (omega (arith, k, later)),
      )
