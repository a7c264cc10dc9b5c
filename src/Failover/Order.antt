-- ===== src/Failover/Order.antt =====
-- In what order a request asks the venues, and when it fails.
use Prim.Native.String.{String}
use mathlib.Core.List.{append_assoc, append-nil}
use native.Mathlib.Nat.{mod-lt, add-mod_right, mod-eq_of_lt}
use buy_not_buy_com.Common.{
  ℕ, zero, suc, ◌+◌, ◌-◌, ◌%◌, ◌<◌, ◌≡◌, refl, ap, ◌∙◌, ◌⊎◌, inl, inr, Bool, true, false, List, [],
  ◌∷◌, ◌++◌, take, drop, ◌≤◌, length, some, get_elem?, sym, Bool-cases, ltb, ltb→lt, tests, arith,
}
use buy_not_buy_com.Failover.Rotation.{
  named_lem, rotation, length-rotation, drop-rotation, drop_all,
}
use buy_not_buy_com.Failover.{
  FailoverProvider, VenueFailure, CallResult, gave, threw, ChainResult, answered_by, chain_failed,
  ProviderError, chain_error, Thrown, to_venue_failure, try_venues, run_attributed,
  record_venue_success, record_venue_failure,
}

abbrev pub is_gave : {A : Type 0} → CallResult A → Bool
is_gave (gave x) = true
is_gave (threw f) = false

-- The failures of a chain that failed.
abbrev pub attempted_of : {A : Type 0} → ChainResult A → List VenueFailure
attempted_of (answered_by i x) = []
attempted_of (chain_failed e) = e.attempted

abbrev pub is_answered : {A : Type 0} → ChainResult A → Bool
is_answered (answered_by i x) = true
is_answered (chain_failed e) = false

-- The venues that a list of failures names.
abbrev pub names : List VenueFailure → List String
names [] = []
names (v ∷ vs) = v.venue ∷ names vs

names-append : (xs ys : List VenueFailure) → names (xs ++ ys) ≡ names xs ++ names ys
names-append [] ys = refl
names-append (x ∷ xs) ys = ap (◌∷◌ x.venue) (names-append xs ys)

module _ {A : Type 0} where
  pub call_cases : (r : CallResult A) → ((x : A) × (r ≡ gave x)) ⊎ ((e : Thrown) × (r ≡ threw e))
  call_cases (gave x) = inl (x, refl)
  call_cases (threw e) = inr (e, refl)

pub record_venue_failure-same :
    (i : ℕ) (f : FailoverProvider)
    → ((record_venue_failure i f).preferred ≡ f.preferred)
      × ((record_venue_failure i f).venues ≡ f.venues)
unfolding record_venue_failure
record_venue_failure-same i f = ground arith

-- Each venue is reached from each other by some number of steps around the chain.
reach_lem : (n p i : ℕ) → p < n → i < n → (k : ℕ) × (k < n) × ((p + (0 + k)) % n ≡ i)
reach_lem n p i hp hi = elim (Bool-cases (ltb i p)) [
  | inl h ↦
      let before : i < p = ltb→lt i p h in
      let round : p + (0 + (i + n - p)) ≡ i + n = omega arith in
      (i + n - p, omega arith, ap (λ j. j % n) round ∙ add-mod_right i n ∙ mod-eq_of_lt hi)
  | inr h ↦
      let ahead : p + (0 + (i - p)) ≡ i = grind (tests, h) in
      (i - p, omega arith, ap (λ j. j % n) ahead ∙ mod-eq_of_lt hi)
]

module _ {A : Type 0} (call : ℕ → CallResult A) where
  pub try_venues-gave :
      (left step : ℕ) (f : FailoverProvider) (failures : List VenueFailure) (asked : List ℕ)
      (name : String) (x : A)
      → let i = (f.preferred + step) % length f.venues in
        get_elem? f.venues i ≡ some name
        → call i ≡ gave x
        → try_venues call (suc left) step f failures asked
          ≡ (record_venue_success i f, answered_by name x, asked ++ i ∷ [])
  unfolding try_venues
  try_venues-gave left step f failures asked name x named gives = ground arith

  pub try_venues-threw :
      (left step : ℕ) (f : FailoverProvider) (failures : List VenueFailure) (asked : List ℕ)
      (name : String) (e : Thrown)
      → let i = (f.preferred + step) % length f.venues in
        get_elem? f.venues i ≡ some name
        → call i ≡ threw e
        → try_venues call (suc left) step f failures asked
          ≡ try_venues call left
              (step + 1)
              (record_venue_failure i f)
              (failures ++ to_venue_failure name e ∷ [])
              (asked ++ i ∷ [])
  unfolding try_venues
  try_venues-threw left step f failures asked name e named throws = ground arith

  index_named :
      (f : FailoverProvider) (step : ℕ)
      → 0 < length f.venues
      → (name : String) × (get_elem? f.venues ((f.preferred + step) % length f.venues) ≡ some name)
  index_named f step h = named_lem f.venues _ (mod-lt (f.preferred + step) h)

  -- A venue within the rounds left that answers makes the request answer.
  try_venues-answers :
      (left step k : ℕ) (f : FailoverProvider) (failures : List VenueFailure) (asked : List ℕ)
      → 0 < length f.venues
      → k < left
      → is_gave (call ((f.preferred + (step + k)) % length f.venues)) ≡ true
      → is_answered ((try_venues call left step f failures asked).1) ≡ true
  try_venues-answers zero step k f failures asked some_venue h g = absurd (omega arith)
  try_venues-answers (suc left) step zero f failures asked some_venue h g =
      let (name, named) = index_named f step some_venue in
      elim (call_cases (call ((f.preferred + step) % length f.venues))) [
        | inl (x, gives) ↦
            ap (λ r. is_answered r.1)
              (try_venues-gave left step f failures asked name x named gives)
        | inr (e, throws) ↦ grind (arith, g, throws)
      ]
  try_venues-answers (suc left) step (suc k) f failures asked some_venue h g =
      let i = (f.preferred + step) % length f.venues in
      let (name, named) = index_named f step some_venue in
      elim (call_cases (call i)) [
        | inl (x, gives) ↦
            ap (λ r. is_answered r.1)
              (try_venues-gave left step f failures asked name x named gives)
        | inr (e, throws) ↦
            let (p, v) = record_venue_failure-same i f in
            let next : step + 1 + k ≡ step + suc k = omega arith in
            ap (λ r. is_answered r.1)
              (try_venues-threw left step f failures asked name e named throws)
            ∙ try_venues-answers left (step + 1) k (record_venue_failure i f) _ _ (rw v some_venue)
                (omega arith) (rw (p, v, next) g)
      ]

  try_venues-names :
      (left step : ℕ) (f : FailoverProvider) (failures : List VenueFailure) (asked : List ℕ)
      → f.preferred < length f.venues
      → step + left ≡ length f.venues
      → is_answered ((try_venues call left step f failures asked).1) ≡ false
      → names (attempted_of ((try_venues call left step f failures asked).1))
        ≡ names failures ++ drop step (rotation f.preferred f.venues)
  unfolding try_venues chain_error
  try_venues-names zero step f failures asked bound all_steps h =
      let done : length (rotation f.preferred f.venues) ≤ step =
        omega (arith, length-rotation f.preferred f.venues bound, all_steps) in
      rw (drop_all step (rotation f.preferred f.venues) done, append-nil) refl
  try_venues-names (suc left) step f failures asked bound all_steps h =
      let i = (f.preferred + step) % length f.venues in
      let (name, named) = index_named f step (omega arith) in
      elim (call_cases (call i)) [
        | inl (x, gives) ↦
            grind (arith, try_venues-gave left step f failures asked name x named gives, h)
        | inr (e, throws) ↦
            let (p, v) = record_venue_failure-same i f in
            let f' = record_venue_failure i f in
            let here = failures ++ to_venue_failure name e ∷ [] in
            let one = try_venues-threw left step f failures asked name e named throws in
            let rest =
              try_venues-names left (step + 1) f' here (asked ++ i ∷ []) (rw (p, v) bound)
                (rw v (omega arith)) (sym (ap (λ r. is_answered r.1) one) ∙ h) in
            ap (λ r. names (attempted_of r.1)) one
            ∙ rest
            ∙ rw
                (
                  p,
                  v,
                  names-append failures (to_venue_failure name e ∷ []),
                  drop-rotation f.preferred step f.venues name bound (omega arith) named,
                )
                (append_assoc (names failures) (name ∷ [])
                  (drop (step + 1) (rotation f.preferred f.venues)))
      ]

  -- A request that no other overlaps, over a chain whose preferred venue exists, fails only when every
  -- venue has failed; and the failures of its error name every venue once, in the order of asking: from
  -- the preferred venue to the last, then from the primary on.
  pub run_attributed-failed :
      (f : FailoverProvider) (i : ℕ) (e : ProviderError)
      → f.preferred < length f.venues
      → (run_attributed call f).1 ≡ chain_failed e
      → i < length f.venues
      → (is_gave (call i) ≡ false)
        × (names e.attempted ≡ drop f.preferred f.venues ++ take f.preferred f.venues)
  unfolding run_attributed
  run_attributed-failed f i e bound failed h =
      let n = length f.venues in
      let (k, k_bound, here) = reach_lem n f.preferred i bound h in
      let unanswered = ap is_answered failed in
      (
        elim (Bool-cases (is_gave (call i))) [
          | inl gives ↦ grind (
            arith,
            unanswered,
            try_venues-answers n 0 k f [] [] (omega arith) k_bound
                (ap (λ j. is_gave (call j)) here ∙ gives),
          )
          | inr none ↦ none
        ],
        sym (ap (λ r. names (attempted_of r)) failed)
            ∙ try_venues-names n 0 f [] [] bound (omega arith) unanswered,
      )
