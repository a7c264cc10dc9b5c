-- ===== src/Breaker/Invariant.antt =====
-- What holds of a breaker between two calls, whatever the calls and the clock.
use buy_not_buy_com.Common.{ℕ, ◌≤◌, ◌<◌, ◌+◌, ◌≡◌, true, List, [], ◌∷◌, arith, ◌↔◌, ◌≢◌}
use buy_not_buy_com.Breaker.{
  Options, CircuitBreaker, BreakerState, Call, new, state, retry_after_ms, step, run,
}

-- A reservation is held only above the threshold, and below it no window is open.
pub record IsConsistent (b : CircuitBreaker) : Type 0 where
  pub reserved : b.probe_in_flight ≡ true → b.options.failure_threshold ≤ b.consecutive_failures
  pub idle : b.consecutive_failures < b.options.failure_threshold → b.open_until ≡ 0

pub new-IsConsistent : (o : Options) → IsConsistent (new o)
unfolding new
new-IsConsistent o = ground arith

pub step-IsConsistent : (b : CircuitBreaker) (c : Call) → IsConsistent b → IsConsistent (step b c)
unfolding step
step-IsConsistent b (Call.acquire t t') h = ground arith
step-IsConsistent b c h = ground arith

pub run-IsConsistent :
    (b : CircuitBreaker) (cs : List Call) → IsConsistent b → IsConsistent (run b cs)
unfolding run
run-IsConsistent b [] h = h
run-IsConsistent b (c ∷ cs) h = run-IsConsistent (step b c) cs (step-IsConsistent b c h)

-- After any calls, the time left is positive exactly while the breaker is open, and at the instant
-- when that time has passed it is open no more.
pub retry_after_ms_exact :
    (o : Options) (cs : List Call) (now : ℕ)
    → let b = run (new o) cs in
      let left = retry_after_ms b now now in
      ((0 < left) ↔ (state b now ≡ BreakerState.opened))
      × (state b (now + left) ≢ BreakerState.opened)
unfolding retry_after_ms
retry_after_ms_exact o cs now = ground (arith, run-IsConsistent (new o) cs (new-IsConsistent o))
