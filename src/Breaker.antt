-- ===== src/Breaker.antt =====
-- src/backend/market/providers/circuit-breaker.ts, class CircuitBreaker. The private fields are a
-- record, a method returns the new record, and each reading of the clock `now()` that a method makes
-- is one argument, in the order of the readings. Times are whole milliseconds since the epoch.
use buy_not_buy_com.Common.{
  ℕ, ◌+◌, ◌-◌, max, Bool, true, false, List, [], ◌∷◌, ltb, leb, if◌then◌else◌, ◌&&◌,
}
pub mod Invariant
pub mod Probe
pub mod Window
mod Tests

pub record Options : Type 0 where
  pub failure_threshold : ℕ
  pub cooldown_ms : ℕ

-- `open` of the source is `opened` here.
pub data BreakerState : Type 0 where
  closed opened probing : BreakerState

pub record CircuitBreaker : Type 0 where
  pub options : Options
  pub consecutive_failures : ℕ
  pub open_until : ℕ
  pub probe_in_flight : Bool

unfoldable pub new : Options → CircuitBreaker
new o = record { options = o; consecutive_failures = 0; open_until = 0; probe_in_flight = false }

abbrev pub is_closed : BreakerState → Bool
is_closed closed = true
is_closed _ = false

abbrev pub is_opened : BreakerState → Bool
is_opened opened = true
is_opened _ = false

abbrev pub is_probing : BreakerState → Bool
is_probing probing = true
is_probing _ = false

-- The getter `state`.
unfoldable pub state : CircuitBreaker → ℕ → BreakerState
state b now =
    if ltb b.consecutive_failures b.options.failure_threshold
    then closed
    else if ltb now b.open_until
    then opened
    else probing

-- The getter `retryAfterMs`; the difference is cut at 0 as `Math.max(0, …)` does.
unfoldable pub retry_after_ms : CircuitBreaker → ℕ → ℕ → ℕ
unfolding state
retry_after_ms b now now' = if is_probing (state b now) then 0 else b.open_until - now'

unfoldable pub try_acquire : CircuitBreaker → ℕ → ℕ → CircuitBreaker × Bool
unfolding state
try_acquire b now now' =
    if is_closed (state b now)
    then (b, true)
    else if is_opened (state b now')
    then (b, false)
    else if b.probe_in_flight
    then (b, false)
    else (record b { probe_in_flight = true }, true)

unfoldable pub release_probe : CircuitBreaker → CircuitBreaker
release_probe b = record b { probe_in_flight = false }

unfoldable pub record_success : CircuitBreaker → CircuitBreaker
record_success b = record b { consecutive_failures = 0; open_until = 0; probe_in_flight = false }

unfoldable pub record_attempt_failure : CircuitBreaker → ℕ → ℕ → CircuitBreaker
record_attempt_failure b now now' =
    let c = record b { consecutive_failures = b.consecutive_failures + 1 } in
    if leb c.options.failure_threshold c.consecutive_failures && leb c.open_until now
    then record c { open_until = now' + c.options.cooldown_ms }
    else c

pub record_failure : CircuitBreaker → ℕ → ℕ → CircuitBreaker
unfolding record_attempt_failure
record_failure b now now' =
    let c = record_attempt_failure b now now' in record c { probe_in_flight = false }

unfoldable pub open_for : CircuitBreaker → ℕ → ℕ → CircuitBreaker
open_for b ms now = record b {
  consecutive_failures = max b.consecutive_failures b.options.failure_threshold;
  open_until = max b.open_until (now + ms);
  probe_in_flight = false;
}

unfoldable pub reset : CircuitBreaker → CircuitBreaker
reset b = record b { consecutive_failures = 0; open_until = 0; probe_in_flight = false }

-- The calls that a transport makes, with the clock readings of each.
pub data Call : Type 0 where
  acquire : ℕ → ℕ → Call
  attempt_failed : ℕ → ℕ → Call
  failed : ℕ → ℕ → Call
  succeeded : Call
  released : Call
  refused_for : ℕ → ℕ → Call
  cleared : Call

pub step : CircuitBreaker → Call → CircuitBreaker
unfolding try_acquire record_attempt_failure record_failure record_success release_probe open_for
    reset
step b (acquire t t') = (try_acquire b t t').0
step b (attempt_failed t t') = record_attempt_failure b t t'
step b (failed t t') = record_failure b t t'
step b succeeded = record_success b
step b released = release_probe b
step b (refused_for ms t) = open_for b ms t
step b cleared = reset b

pub run : CircuitBreaker → List Call → CircuitBreaker
run b [] = b
run b (c ∷ cs) = run (step b c) cs
