-- ===== src/Failover/Rotation.antt =====
-- A list read from one of its elements on, around its end.
use native.Mathlib.Nat.{suc-add, add-mod_right, mod-eq_of_lt}
use buy_not_buy_com.Common.{
  ℕ, zero, suc, ◌+◌, ◌-◌, ◌%◌, ◌<◌, ◌≤◌, ◌≡◌, refl, sym, ap, ◌∙◌, inl, inr, some, List, [], ◌∷◌,
  ◌++◌, length, length-append, length-drop, length-take, get_elem?, take, drop, Bool-cases, ltb,
  if◌then◌else◌, tests, arith,
}

module _ {B : Type 0} where
  pub named_lem : (xs : List B) (i : ℕ) → i < length xs → (x : B) × (get_elem? xs i ≡ some x)
  named_lem [] i h = absurd (omega arith)
  named_lem (x ∷ xs) zero h = (x, refl)
  named_lem (x ∷ xs) (suc i) h = named_lem xs i (omega arith)

  pub drop_all : (k : ℕ) (xs : List B) → length xs ≤ k → drop k xs ≡ []
  drop_all zero [] h = refl
  drop_all zero (x ∷ xs) h = absurd (omega arith)
  drop_all (suc k) [] h = refl
  drop_all (suc k) (x ∷ xs) h = drop_all k xs (omega arith)

  drop-get :
      (k : ℕ) (xs : List B) (x : B) → get_elem? xs k ≡ some x → drop k xs ≡ x ∷ drop (k + 1) xs
  drop-get zero [] x h = absurd (ground (arith, h))
  drop-get zero (y ∷ xs) x h = ground (arith, h)
  drop-get (suc k) [] x h = absurd (ground (arith, h))
  drop-get (suc k) (y ∷ xs) x h = rw (suc-add) (drop-get k xs x h)

  get_elem?-append :
      (xs ys : List B) (i : ℕ)
      → get_elem? (xs ++ ys) i
        ≡ (if ltb i (length xs) then get_elem? xs i else get_elem? ys (i - length xs))
  get_elem?-append [] ys i = grind (tests, arith)
  get_elem?-append (x ∷ xs) ys zero = grind (tests, arith)
  get_elem?-append (x ∷ xs) ys (suc i) = grind (tests, arith, get_elem?-append xs ys i)

  get_elem?-drop : (k i : ℕ) (xs : List B) → get_elem? (drop k xs) i ≡ get_elem? xs (k + i)
  get_elem?-drop zero i xs = ap (λ j. get_elem? xs j) (omega arith)
  get_elem?-drop (suc k) i [] = refl
  get_elem?-drop (suc k) i (x ∷ xs) = rw suc-add (get_elem?-drop k i xs)

  get_elem?-take : (k i : ℕ) (xs : List B) → i < k → get_elem? (take k xs) i ≡ get_elem? xs i
  get_elem?-take zero i xs h = absurd (omega arith)
  get_elem?-take (suc k) i [] h = refl
  get_elem?-take (suc k) zero (x ∷ xs) h = refl
  get_elem?-take (suc k) (suc i) (x ∷ xs) h = get_elem?-take k i xs (omega arith)

  -- From the element at `p` to the last, then from the first on.
  abbrev pub rotation : ℕ → List B → List B
  rotation p xs = drop p xs ++ take p xs

  pub length-rotation : (p : ℕ) (xs : List B) → p < length xs → length (rotation p xs) ≡ length xs
  length-rotation p xs h =
      omega (arith, length-append (drop p xs) (take p xs), length-drop p xs, length-take p xs)

  get_elem?-rotation :
      (p k : ℕ) (xs : List B)
      → p < length xs
      → k < length xs
      → get_elem? (rotation p xs) k ≡ get_elem? xs ((p + k) % length xs)
  get_elem?-rotation p k xs hp hk =
      let n = length xs in
      let split = get_elem?-append (drop p xs) (take p xs) k in
      elim (Bool-cases (ltb k (length (drop p xs)))) [
        | inl ahead ↦
            let inside : p + k < n = grind (tests, arith, ahead, length-drop p xs) in
            split
            ∙ rw ahead
                (get_elem?-drop p k xs ∙ ap (λ j. get_elem? xs j) (sym (mod-eq_of_lt inside)))
        | inr around ↦
            let over : n ≤ p + k = grind (tests, arith, around, length-drop p xs) in
            let back : k - length (drop p xs) ≡ p + k - n = omega (arith, length-drop p xs) in
            let small : p + k - n < p = omega arith in
            let inside : p + k - n < n = omega arith in
            let whole : p + k ≡ p + k - n + n = omega arith in
            let rest : (p + k) % n ≡ p + k - n =
              ap (λ j. j % n) whole ∙ add-mod_right (p + k - n) n ∙ mod-eq_of_lt inside in
            split
            ∙ rw (around, back)
                (get_elem?-take p (p + k - n) xs small ∙ ap (λ j. get_elem? xs j) (sym rest))
      ]

  pub drop-rotation :
      (p k : ℕ) (xs : List B) (x : B)
      → p < length xs
      → k < length xs
      → get_elem? xs ((p + k) % length xs) ≡ some x
      → drop k (rotation p xs) ≡ x ∷ drop (k + 1) (rotation p xs)
  drop-rotation p k xs x hp hk h =
      drop-get k (rotation p xs) x (get_elem?-rotation p k xs hp hk ∙ h)
