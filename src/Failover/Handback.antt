-- ===== src/Failover/Handback.antt =====
-- When a chain that uses a backup moves back to its primary.
use Prim.Native.String.{String}
use mathlib.Core.Path.{subst}
use native.Mathlib.Nat.{mod-eq_of_lt}
use buy_not_buy_com.Common.{
  ℕ, zero, suc, ◌+◌, ◌<◌, ◌≡◌, refl, sym, ap, ◌∙◌, List, [], ◌∷◌, ◌++◌, All, All-append, length,
  arith,
}
use buy_not_buy_com.Failover.{
  FailoverProvider, Thrown, CallResult, gave, threw, answered_by, to_venue_failure, run_attributed,
  record_venue_success, record_venue_failure, try_venues,
}
use buy_not_buy_com.Failover.Rotation.{named_lem}
use buy_not_buy_com.Failover.Order.{try_venues-gave, try_venues-threw}

module _ {A : Type 0} where
  -- Requests one after another, each with what its venues would give: the state after them, and all
  -- venues that they asked.
  unfoldable pub run_requests :
      List (ℕ → CallResult A) → FailoverProvider → FailoverProvider × List ℕ
  run_requests [] f = (f, [])
  run_requests (call ∷ calls) f =
      let (f', result, asked) = run_attributed call f in
      let (g, later) = run_requests calls f' in (g, asked ++ later)

  abbrev pub repeated : ℕ → (ℕ → CallResult A) → List (ℕ → CallResult A)
  repeated zero call = []
  repeated (suc n) call = call ∷ repeated n call

  -- A request that the preferred venue answers.
  first_answers :
      (call : ℕ → CallResult A) (left : ℕ) (f : FailoverProvider) (x : A)
      → 0 < left
      → f.preferred < length f.venues
      → call f.preferred ≡ gave x
      → (name : String) × (try_venues call left 0 f [] []
          ≡ (f, answered_by name x, f.preferred ∷ []))
  unfolding record_venue_success
  first_answers call zero f x some_left bound gives = absurd (omega arith)
  first_answers call (suc left) f x some_left bound gives =
      let (name, named) = named_lem f.venues f.preferred bound in
      (
        name,
        grind (arith, try_venues-gave call left 0 f [] [] name x, mod-eq_of_lt bound, named, gives),
      )

  -- As long as the preferred venue answers each request, the requests change nothing: a chain that has
  -- moved to a backup stays there, whatever the primary would have given.
  pub answering_backup_stays :
      (calls : List (ℕ → CallResult A)) (f : FailoverProvider)
      → f.preferred < length f.venues
      → All (λ call. (x : A) × (call f.preferred ≡ gave x)) calls
      → (run_requests calls f).0 ≡ f
  unfolding run_requests run_attributed
  answering_backup_stays [] f bound gives = refl
  answering_backup_stays (call ∷ calls) f bound ((x, g), gs) =
      let (name, first) = first_answers call (length f.venues) f x (omega arith) bound g in
      ap (λ r. (run_requests calls r.0).0) first ∙ answering_backup_stays calls f bound gs

  -- A request that the preferred backup fails and the backup after it answers.
  second_answers :
      (call : ℕ → CallResult A) (left : ℕ) (f : FailoverProvider) (e : Thrown) (x : A)
      → 1 < left
      → 0 < f.preferred
      → f.preferred + 1 < length f.venues
      → call f.preferred ≡ threw e
      → call (f.preferred + 1) ≡ gave x
      → let (f', result, asked) = try_venues call left 0 f [] [] in
        (f' ≡ record_venue_success (f.preferred + 1) f)
        × (asked ≡ f.preferred ∷ (f.preferred + 1) ∷ [])
  unfolding record_venue_failure
  second_answers call zero f e x some_left switched bound throws gives = absurd (omega arith)
  second_answers call (suc zero) f e x some_left switched bound throws gives = absurd (omega arith)
  second_answers call (suc (suc left)) f e x some_left switched bound throws gives =
      let inside : f.preferred < length f.venues = omega arith in
      let (name, named) = named_lem f.venues f.preferred inside in
      let (next, next_named) = named_lem f.venues (f.preferred + 1) bound in
      grind (
        arith,
        try_venues-threw call (suc left) 0 f [] [] name e,
        try_venues-gave call left 1 f (to_venue_failure name e ∷ []) (f.preferred ∷ []) next x,
        mod-eq_of_lt inside,
        mod-eq_of_lt bound,
        named,
        next_named,
        throws,
        gives,
      )

  -- When the preferred backup fails each of some requests, made one after another and overlapped by no
  -- others, and the backup after it answers, then none of them asks the primary; yet with the request
  -- that brings the count of successes to `recovery_successes` the chain counts as recovered: it prefers
  -- the primary, and the count is 0.
  pub handed_back_unasked :
      (call : ℕ → CallResult A) (k : ℕ) (f : FailoverProvider) (e : Thrown) (x : A)
      → f.consecutive_backup_successes + suc k ≡ f.recovery_successes
      → 0 < f.preferred
      → f.preferred + 1 < length f.venues
      → call f.preferred ≡ threw e
      → call (f.preferred + 1) ≡ gave x
      → let (f', asked) = run_requests (repeated (suc k) call) f in
        (f'.preferred ≡ 0) × (f'.consecutive_backup_successes ≡ 0) × All (λ i. 0 < i) asked
  unfolding run_requests run_attributed record_venue_success
  handed_back_unasked call zero f e x count switched bound throws gives =
      let (after, asked) =
        second_answers call (length f.venues) f e x (omega arith) switched bound throws gives in
      let primary : record_venue_success (f.preferred + 1) f
          ≡ record f { preferred = 0; consecutive_backup_successes = 0 } =
        ground arith in
      let both = after ∙ primary in
      (
        ap (λ g. g.preferred) both,
        ap (λ g. g.consecutive_backup_successes) both,
        subst (λ is. All (λ i. 0 < i) (is ++ [])) (sym asked) (switched, (omega arith, tt)),
      )
  handed_back_unasked call (suc k) f e x count switched bound throws gives =
      let f' = record f { consecutive_backup_successes = f.consecutive_backup_successes + 1 } in
      let counted : record_venue_success (f.preferred + 1) f ≡ f' = ground arith in
      let (after, asked) =
        second_answers call (length f.venues) f e x (omega arith) switched bound throws gives in
      let both = after ∙ counted in
      let (home, cleared, others) =
        handed_back_unasked call k f' e x (omega arith) switched bound throws gives in
      let next : FailoverProvider → FailoverProvider × List ℕ =
        run_requests (repeated (suc k) call) in
      (
        ap (λ g. (next g).0.preferred) both ∙ home,
        ap (λ g. (next g).0.consecutive_backup_successes) both ∙ cleared,
        All-append (λ i. 0 < i) _ _
            (subst (All (λ i. 0 < i)) (sym asked) (switched, (omega arith, tt)))
            (subst (λ g. All (λ i. 0 < i) (next g).1) (sym both) others),
      )
