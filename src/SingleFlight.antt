-- ===== src/SingleFlight.antt =====
-- src/backend/observability/single-flight.ts. A call of `run` is named by a number of its own, and the
-- promise of a call's work by that call. Events are what the event loop does, in any order: a call
-- arrives, the work of a call settles (with the `finally` that forgets it), or a call that awaits a
-- settled promise goes on. An event that cannot happen changes nothing.
use Prim.Native.String.{String}
use buy_not_buy_com.Common.{
  ℕ, ◌+◌, Bool, true, false, Option, some, none, List, [], ◌∷◌, ◌==◌, if◌then◌else◌,
}
use buy_not_buy_com.Common.Dict.{Dict, lookup, insert}
pub mod Calls
pub mod Markets
mod Tests

-- What a piece of work comes to.
pub data Settled (A : Type 0) : Type 0 where
  fulfilled : A → Settled A
  rejected : Settled A

-- Where a call of `run` stands: before it, awaiting its own work as the leader, awaiting the promise of
-- another, awaiting its own attempt after another's failure, or returned with its `leader` flag.
pub data Progress (A : Type 0) : Type 0 where
  idle leading retrying : Progress A
  following : ℕ → Progress A
  answered : Settled A → Bool → Progress A

-- `outcome c` is what the work that call `c` started has come to.
pub record SingleFlight (A : Type 0) : Type 0 where
  pub current : Option ℕ
  pub followers : ℕ
  pub retried : ℕ
  pub progress : ℕ → Progress A
  pub outcome : ℕ → Option (Settled A)

pub data Event (A : Type 0) : Type 0 where
  arrive : ℕ → Event A
  settle : ℕ → Settled A → Event A
  resume : ℕ → Event A

abbrev pub assign : {B : Type 0} → ℕ → B → (ℕ → B) → ℕ → B
assign c x f d = if c == d then x else f d

abbrev pub forget : ℕ → Option ℕ → Option ℕ
forget c none = none
forget c (some l) = if l == c then none else some l

module _ {A : Type 0} where
  pub create_single_flight : SingleFlight A
  create_single_flight = record {
    current = none;
    followers = 0;
    retried = 0;
    progress = λ c. idle;
    outcome = λ c. none;
  }

  -- The part of `run` before its first `await`.
  pub start : ℕ → Option ℕ → SingleFlight A → SingleFlight A
  start c none s = record s { current = some c; progress = assign c leading s.progress }
  start c (some l) s = record s {
    followers = s.followers + 1;
    progress = assign c (following l) s.progress;
  }

  -- The promise settles, and the `finally` of a leader's forgets it.
  pub finish : ℕ → Settled A → Option (Settled A) → SingleFlight A → SingleFlight A
  finish c r none s = record s {
    current = forget c s.current;
    outcome = assign c (some r) s.outcome;
  }
  finish c r (some _) s = s

  abbrev pub answer_with : ℕ → Settled A → Bool → SingleFlight A → SingleFlight A
  answer_with c r leader s = record s { progress = assign c (answered r leader) s.progress }

  -- A call goes on with its own work's outcome, as the leader.
  pub resume_own : ℕ → Option (Settled A) → SingleFlight A → SingleFlight A
  resume_own c none s = s
  resume_own c (some r) s = answer_with c r true s

  -- A follower goes on: with the result, or with an attempt of its own.
  pub resume_follower : ℕ → Option (Settled A) → SingleFlight A → SingleFlight A
  resume_follower c none s = s
  resume_follower c (some (fulfilled x)) s = answer_with c (fulfilled x) false s
  resume_follower c (some rejected) s = record s {
    retried = s.retried + 1;
    progress = assign c retrying s.progress;
  }

  pub step_arrive : ℕ → Progress A → SingleFlight A → SingleFlight A
  unfolding start
  step_arrive c idle s = start c s.current s
  step_arrive c _ s = s

  pub step_settle : ℕ → Settled A → Progress A → SingleFlight A → SingleFlight A
  unfolding finish
  step_settle c r leading s = finish c r (s.outcome c) s
  step_settle c r retrying s = finish c r (s.outcome c) s
  step_settle c r _ s = s

  pub step_resume : ℕ → Progress A → SingleFlight A → SingleFlight A
  unfolding resume_own resume_follower
  step_resume c leading s = resume_own c (s.outcome c) s
  step_resume c retrying s = resume_own c (s.outcome c) s
  step_resume c (following l) s = resume_follower c (s.outcome l) s
  step_resume c _ s = s

  pub step_flight : SingleFlight A → Event A → SingleFlight A
  unfolding step_arrive step_settle step_resume
  step_flight s (arrive c) = step_arrive c (s.progress c) s
  step_flight s (settle c r) = step_settle c r (s.progress c) s
  step_flight s (resume c) = step_resume c (s.progress c) s

  pub run_flight : SingleFlight A → List (Event A) → SingleFlight A
  run_flight s [] = s
  run_flight s (e ∷ es) = run_flight (step_flight s e) es

  -- `forMarket`: the coalescer of the key, created on first use.
  pub for_market : String → Dict (SingleFlight A) → SingleFlight A
  unfolding create_single_flight
  for_market key flights = elim (lookup key flights) [ none ↦ create_single_flight | some s ↦ s ]

  -- An event of one market's coalescer, which a use of `forMarket` has put into the map.
  pub step_market : Dict (SingleFlight A) → String × Event A → Dict (SingleFlight A)
  unfolding for_market step_flight
  step_market flights (key, e) = insert key (step_flight (for_market key flights) e) flights

  pub run_markets : Dict (SingleFlight A) → List (String × Event A) → Dict (SingleFlight A)
  run_markets flights [] = flights
  run_markets flights (e ∷ es) = run_markets (step_market flights e) es

  -- `reset`: the map forgets every coalescer. A call that still holds one goes on with it, as the events
  -- of `SingleFlight` say.
  pub reset_markets : Dict (SingleFlight A) → Dict (SingleFlight A)
  reset_markets flights = []
