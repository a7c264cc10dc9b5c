-- ===== src/Breaker/Probe.antt =====
-- How many probes a breaker lets through.
use buy_not_buy_com.Common.{
  ℕ, ◌≤◌, ◌+◌, ◌≡◌, Bool, true, false, not, ◌&&◌, List, [], ◌∷◌, arith, All, ◌<◌, refl,
}
use buy_not_buy_com.Breaker.{CircuitBreaker, Call, state, is_closed, try_acquire, step, run}

abbrev pub bit : Bool → ℕ
bit true = 1
bit false = 0

-- 1 for a call that is let through as a probe: it is admitted, and the breaker is not closed.
abbrev pub probe : CircuitBreaker → Call → ℕ
probe b (Call.acquire t t') = bit (not (is_closed (state b t)) && (try_acquire b t t').1)
probe b _ = 0

-- 1 for a call by which a request reports that it is over.
abbrev pub completion : Call → ℕ
completion (Call.acquire t t') = 0
completion (Call.attempt_failed t t') = 0
completion Call.cleared = 0
completion _ = 1

-- 1 for a reset, which no request makes.
abbrev pub clearing : Call → ℕ
clearing Call.cleared = 1
clearing _ = 0

abbrev pub probes : CircuitBreaker → List Call → ℕ
probes b [] = 0
probes b (c ∷ cs) = probe b c + probes (step b c) cs

abbrev pub completions : List Call → ℕ
completions [] = 0
completions (c ∷ cs) = completion c + completions cs

abbrev pub resets : List Call → ℕ
resets [] = 0
resets (c ∷ cs) = clearing c + resets cs

probe-step :
    (b : CircuitBreaker) (c : Call)
    → probe b c + bit b.probe_in_flight ≤ bit (step b c).probe_in_flight + completion c + clearing c
unfolding step try_acquire
probe-step b (Call.acquire t t') = ground arith
probe-step b c = ground arith

bit-le : (x : Bool) → bit x ≤ 1
bit-le x = ground arith

-- Over any calls from any state, the probes let through outnumber the reports of a request's end and the
-- resets together by at most one, and by none if a reservation was held at the start.
pub probes-le-completions :
    (b : CircuitBreaker) (cs : List Call)
    → probes b cs + bit b.probe_in_flight ≤ completions cs + resets cs + 1
probes-le-completions b [] = omega (arith, bit-le b.probe_in_flight)
probes-le-completions b (c ∷ cs) =
    omega (arith, probe-step b c, probes-le-completions (step b c) cs)

-- The calls of a burst that arrives before the window has passed.
abbrev pub acquires : List (ℕ × ℕ) → List Call
acquires [] = []
acquires ((t, t') ∷ ts) = Call.acquire t t' ∷ acquires ts

abbrev pub IsEarly : CircuitBreaker → ℕ × ℕ → Type 0
IsEarly b (t, t') = t' < b.open_until

acquire_early : (b : CircuitBreaker) (t t' : ℕ) → t' < b.open_until → step b (Call.acquire t t') ≡ b
unfolding step try_acquire
acquire_early b t t' h = ground arith

run-acquires_early :
    (b : CircuitBreaker) (ts : List (ℕ × ℕ)) → All (IsEarly b) ts → run b (acquires ts) ≡ b
unfolding run
run-acquires_early b [] h = refl
run-acquires_early b ((t, t') ∷ ts) (h, hs) =
    rw (acquire_early b t t' h, run) (run-acquires_early b ts hs)

admits_unreserved :
    (b : CircuitBreaker) (t t' : ℕ)
    → b.probe_in_flight ≡ false
    → b.open_until ≤ t'
    → (try_acquire b t t').1 ≡ true
unfolding try_acquire
admits_unreserved b t t' e h = ground arith

completion_unreserves :
    (b : CircuitBreaker) (c : Call) → completion c ≡ 1 → (step b c).probe_in_flight ≡ false
unfolding step
completion_unreserves b (Call.acquire _ _) e = ground arith
completion_unreserves b c e = ground arith

-- A breaker is never stranded: whatever its state was, once a request has ended by any report, and
-- whatever burst was refused before the end of the window, the first caller after it is admitted.
pub admits_after_window :
    (b : CircuitBreaker) (c : Call) (ts : List (ℕ × ℕ)) (t t' : ℕ)
    → completion c ≡ 1
    → All (IsEarly (step b c)) ts
    → (step b c).open_until ≤ t'
    → (try_acquire (run (step b c) (acquires ts)) t t').1 ≡ true
admits_after_window b c ts t t' e early h =
    rw (run-acquires_early (step b c) ts early)
      (admits_unreserved (step b c) t t' (completion_unreserves b c e) h)
