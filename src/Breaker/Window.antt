-- ===== src/Breaker/Window.antt =====
-- When a breaker opens, and for how long.
use buy_not_buy_com.Common.{ℕ, suc, ◌≤◌, ◌+◌, ◌≡◌, List, [], ◌∷◌, arith, length, ltb, if◌then◌else◌}
use buy_not_buy_com.Breaker.{
  Options, CircuitBreaker, BreakerState, Call, new, state, record_failure, record_attempt_failure,
  open_for, step, run,
}
use buy_not_buy_com.Breaker.Invariant.{new-IsConsistent, run-IsConsistent}

-- Failed requests one after the other, each with its two clock readings.
abbrev pub failures : List (ℕ × ℕ) → List Call
failures [] = []
failures ((t, t') ∷ ts) = Call.failed t t' ∷ failures ts

failed-effect :
    (b : CircuitBreaker) (t t' : ℕ)
    → ((step b (Call.failed t t')).consecutive_failures ≡ suc b.consecutive_failures)
      × ((step b (Call.failed t t')).options ≡ b.options)
unfolding step
failed-effect b t t' = ground arith

run-failures :
    (b : CircuitBreaker) (ts : List (ℕ × ℕ))
    → ((run b (failures ts)).consecutive_failures ≡ b.consecutive_failures + length ts)
      × ((run b (failures ts)).options ≡ b.options)
unfolding run
run-failures b [] = ground arith
run-failures b ((t, t') ∷ ts) =
    ground (arith, failed-effect b t t', run-failures (step b (Call.failed t t')) ts)

-- A new breaker stays closed over one failure less than the threshold, and the failure that reaches
-- the threshold opens it for the whole cooldown from that failure, and no longer.
pub failures_open :
    (o : Options) (ts : List (ℕ × ℕ)) (t t' now : ℕ)
    → length ts + 1 ≡ o.failure_threshold
    → let b = run (new o) (failures ts) in
      (state b now ≡ BreakerState.closed)
      × (state (record_failure b t t') now
          ≡ (if ltb now (t' + o.cooldown_ms) then BreakerState.opened else BreakerState.probing))
unfolding state record_failure new
failures_open o ts t t' now e =
    ground
      (arith, run-failures (new o) ts, run-IsConsistent (new o) (failures ts) (new-IsConsistent o))

-- A failure reported while the breaker is open does not move the end of its window, and a refusal
-- that names a window never shortens the one that is open.
pub window_kept :
    (b : CircuitBreaker) (t t' ms : ℕ)
    → state b t ≡ BreakerState.opened
    → ((record_failure b t t').open_until ≡ b.open_until)
      × ((record_attempt_failure b t t').open_until ≡ b.open_until)
      × (b.open_until ≤ (open_for b ms t).open_until)
      × (t + ms ≤ (open_for b ms t).open_until)
unfolding state record_failure record_attempt_failure open_for
window_kept b t t' ms h = ground arith
