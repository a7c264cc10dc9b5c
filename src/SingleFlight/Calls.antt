-- ===== src/SingleFlight/Calls.antt =====
-- What each call of one coalescer gets, over any events.
use buy_not_buy_com.Common.{
  ℕ, ◌≡◌, ◌≢◌, refl, Bool, true, false, Option, some, none, List, [], ◌∷◌, arith,
}
use buy_not_buy_com.SingleFlight.{
  SingleFlight, Settled, fulfilled, rejected, Progress, idle, leading, retrying, following,
  answered, Event, arrive, settle, resume, step_flight, run_flight, create_single_flight,
}

module _ {A : Type 0} where
  -- What an answer rests on: the call's own work where it says that it led, and otherwise the success
  -- of another's. A work in flight is the current one, and a follower awaits a settled work or the
  -- current one.
  abbrev pub IsBacked : SingleFlight A → ℕ → Progress A → Type 0
  IsBacked s c idle = s.outcome c ≡ none
  IsBacked s c leading = s.outcome c ≡ none → s.current ≡ some c
  IsBacked s c retrying = Unit
  IsBacked s c (following l) = (s.outcome l ≡ none → s.current ≡ some l) × (s.outcome c ≡ none)
  IsBacked s c (answered r true) = s.outcome c ≡ some r
  IsBacked s c (answered r false) = r ≢ rejected

  pub record IsSane (s : SingleFlight A) : Type 0 where
    pub backed : (c : ℕ) → IsBacked s c (s.progress c)
    pub led : (c : ℕ) → s.current ≡ some c → (s.progress c ≡ leading) × (s.outcome c ≡ none)

  step_flight-IsBacked :
      (s : SingleFlight A) (e : Event A)
      → IsSane s
      → (d : ℕ) → let t = step_flight s e in IsBacked t d (t.progress d)
  unfolding step_flight
  step_flight-IsBacked s (arrive c) h d = ground (arith, h.backed c, h.backed d, h.led d)
  step_flight-IsBacked s (settle c r) h d = ground (arith, h.backed c, h.backed d, h.led d)
  step_flight-IsBacked s (resume c) h d = ground (arith, h.backed c, h.backed d, h.led d)

  step_flight-led :
      (s : SingleFlight A) (e : Event A)
      → IsSane s
      → (d : ℕ)
      → let t = step_flight s e in
        t.current ≡ some d → (t.progress d ≡ leading) × (t.outcome d ≡ none)
  unfolding step_flight
  step_flight-led s (arrive c) h d i = ground (arith, h.backed c, h.backed d, h.led d)
  step_flight-led s (settle c r) h d i = ground (arith, h.backed c, h.backed d, h.led d)
  step_flight-led s (resume c) h d i = ground (arith, h.backed c, h.backed d, h.led d)

  step_flight-IsSane : (s : SingleFlight A) (e : Event A) → IsSane s → IsSane (step_flight s e)
  step_flight-IsSane s e h = record {
    backed = step_flight-IsBacked s e h;
    led = step_flight-led s e h;
  }

  run_flight-IsSane :
      (s : SingleFlight A) (es : List (Event A)) → IsSane s → IsSane (run_flight s es)
  unfolding run_flight
  run_flight-IsSane s [] h = h
  run_flight-IsSane s (e ∷ es) h = run_flight-IsSane (step_flight s e) es (step_flight-IsSane s e h)

  reached-IsSane : (es : List (Event A)) → IsSane (run_flight create_single_flight es)
  unfolding create_single_flight
  reached-IsSane es =
      run_flight-IsSane create_single_flight es
        (record { backed = λ c. refl; led = λ c h. ground (arith, h) })

  -- A failure is never shared: over any events, a call that returns with a failure is one whose own
  -- work failed, and it returns as a leader.
  pub failures_not_shared :
      (es : List (Event A)) (c : ℕ) (leader : Bool)
      → let s = run_flight create_single_flight es in
        s.progress c ≡ answered rejected leader → (leader ≡ true) × (s.outcome c ≡ some rejected)
  failures_not_shared es c leader h = ground (arith, (reached-IsSane es).backed c)

  -- There is no stampede: over any events, two leaders whose work has not settled are the same call,
  -- and it is the one that a new call would join.
  pub leaders_alone :
      (es : List (Event A)) (c d : ℕ)
      → let s = run_flight create_single_flight es in
        s.progress c ≡ leading
        → s.outcome c ≡ none
        → s.progress d ≡ leading
        → s.outcome d ≡ none
        → (c ≡ d) × (s.current ≡ some c)
  leaders_alone es c d i j k l =
      ground (arith, (reached-IsSane es).backed c, (reached-IsSane es).backed d)

  -- What a follower of work that came to `x` gets, with the outcome of its own attempt if it makes one.
  abbrev pub follower_answer : Settled A → Settled A → Progress A
  follower_answer (fulfilled x) own = answered (fulfilled x) false
  follower_answer rejected own = answered own true

  abbrev earlier_or : Option (Settled A) → Settled A → Settled A
  earlier_or none r = r
  earlier_or (some x) r = x

  -- A follower is never left waiting: in any state that calls can reach, once the work that it joined
  -- has settled, it goes on, and an attempt of its own, if it makes one, settles, it has returned, with
  -- the result of the work that it joined or, if that failed, with its own.
  pub followers_return :
      (es : List (Event A)) (c l : ℕ) (r own : Settled A)
      → let s = run_flight create_single_flight es in
        let t = run_flight s (settle l r ∷ resume c ∷ settle c own ∷ resume c ∷ []) in
        s.progress c ≡ following l
        → (x : Settled A) × (t.outcome l ≡ some x) × (t.progress c ≡ follower_answer x own)
  unfolding run_flight step_flight
  followers_return es c l r own h =
      let s = run_flight create_single_flight es in
      let f1 = (reached-IsSane es).backed c in
      let f2 = (reached-IsSane es).backed l in
      let f3 = (reached-IsSane es).led l in
      (earlier_or (s.outcome l) r, ground (arith, f1, f2, f3), ground (arith, f1, f2, f3))
