-- ===== src/Breaker/Tests.antt =====
-- Runs of the circuit breaker on concrete calls.
use buy_not_buy_com.Common.{ℕ, ◌+◌, ◌≤◌, ◌≡◌, refl, true, List, [], ◌∷◌}
use buy_not_buy_com.Breaker.{Options, CircuitBreaker, Call, new, try_acquire, step, run}
use buy_not_buy_com.Breaker.Probe.{probes, completions, resets, probes-le-completions}

abbrev options : Options
options = record { failure_threshold = 3; cooldown_ms = 1000 }

abbrev outage : List Call
outage =
    Call.failed 10 10
    ∷ Call.failed 20 20
    ∷ Call.failed 30 30
    ∷ Call.acquire 1040 1040
    ∷ Call.acquire 1041 1041
    ∷ []

one_probe : probes (new options) outage ≡ 1
unfolding new step run try_acquire
one_probe = refl

probes-le-completions_example : 1 + 0 ≤ completions outage + resets outage + 1
unfolding new step run try_acquire
probes-le-completions_example = probes-le-completions (new options) outage

abbrev two_failures : List (ℕ × ℕ)
two_failures = (10, 10) ∷ (20, 20) ∷ []

abbrev opened_breaker : CircuitBreaker
opened_breaker = record {
  options = options;
  consecutive_failures = 3;
  open_until = 1030;
  probe_in_flight = true;
}
