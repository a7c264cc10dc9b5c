-- ===== src/Transport/Attempts.antt =====
-- How many attempts a request makes, and what it returns.
use Prim.Native.String.{String}
use buy_not_buy_com.Common.{
  ℕ, zero, suc, ◌+◌, ◌≡◌, Bool, true, false, not, ◌&&◌, some, leb, if◌then◌else◌, arith,
}
use buy_not_buy_com.Breaker.{is_closed, state, try_acquire}
use buy_not_buy_com.ProviderHealth.{Normaliser}
use buy_not_buy_com.Transport.{
  TransportConfig, Host, replied, fetch_threw, Attempt, RequestResult, Progress, Venue, is_ok,
  is_rate_limit_status, rate_limit_error, http_status_error, transport_error,
  resolve_retry_after_ms,
}
use buy_not_buy_com.Transport.Request.{
  Admission, settle_attempt, request_rounds, send_provider_request, admit,
}

-- An attempt that a second one may mend: an error that is not the caller's abort, or a 5xx.
abbrev pub is_mendable : Attempt → Bool
is_mendable a = elim a.fetched [
  | replied reply ↦ leb 500 reply.status
  | fetch_threw aborted timed_out ↦ not aborted
]

-- Whether each of the first `k` attempts is one that a second one may mend.
abbrev pub are_mendable : (ℕ → Attempt) → ℕ → Bool
are_mendable attempts zero = true
are_mendable attempts (suc k) = are_mendable attempts k && is_mendable (attempts k)

module _ (cfg : TransportConfig) where
  abbrev pub is_last : ℕ → Attempt → Bool
  is_last attempt a = if is_mendable a then leb cfg.max_retries attempt else true

  -- A request ends at its attempt `k`: all before it could be mended, and it could not or no more
  -- were allowed.
  abbrev pub ends_at : (ℕ → Attempt) → ℕ → Bool
  ends_at attempts k = are_mendable attempts k && is_last k (attempts k)

module _ (cfg : TransportConfig) (h : Host) (n : Normaliser) (provider market : String) where
  -- What a request returns when an attempt is its last.
  abbrev pub result_of : Attempt → RequestResult
  result_of a = elim a.fetched [
    | fetch_threw aborted timed_out ↦
        if aborted
        then RequestResult.rethrown
        else RequestResult.refused (transport_error timed_out)
    | replied reply ↦
        let ms = resolve_retry_after_ms cfg h reply a.parsed_at in
        if is_rate_limit_status reply.status provider
        then RequestResult.refused (rate_limit_error reply ms)
        else if is_ok reply.status
        then RequestResult.response reply
        else RequestResult.refused (http_status_error provider reply.status)
  ]

  settle-progress :
      (held : Bool) (attempt : ℕ) (a : Attempt) (v : Venue)
      → (settle_attempt cfg h n provider market held attempt a v).progress
        ≡ (if is_last cfg attempt a then Progress.ended (result_of a) else Progress.again)
  unfolding settle_attempt is_rate_limit_status
  settle-progress held attempt a v = ground arith

  pub step-last :
      (left attempt : ℕ) (held : Bool) (attempts : ℕ → Attempt) (v : Venue)
      → is_last cfg attempt (attempts attempt) ≡ true
      → let s = settle_attempt cfg h n provider market held attempt (attempts attempt) v in
        request_rounds cfg h n provider market (suc left) attempt held attempts v
        ≡ (s.venue, some (result_of (attempts attempt)))
  unfolding request_rounds
  step-last left attempt held attempts v last =
      ground (arith, settle-progress held attempt (attempts attempt) v)

  pub step-again :
      (left attempt : ℕ) (held : Bool) (attempts : ℕ → Attempt) (v : Venue)
      → is_last cfg attempt (attempts attempt) ≡ false
      → let s = settle_attempt cfg h n provider market held attempt (attempts attempt) v in
        request_rounds cfg h n provider market (suc left) attempt held attempts v
        ≡ request_rounds cfg h n provider market left (attempt + 1) s.probe_held attempts s.venue
  unfolding request_rounds
  step-again left attempt held attempts v last =
      ground (arith, settle-progress held attempt (attempts attempt) v)

  pub send-admitted :
      (c : Admission) (attempts : ℕ → Attempt) (v : Venue)
      → let (b, admitted) = try_acquire v.breaker c.acquired_at c.acquired_again in
        let held = not (is_closed (state v.breaker c.asked_at)) in
        admitted ≡ true
        → send_provider_request cfg h n provider market c attempts v
          ≡ request_rounds cfg h n provider market
              (cfg.max_retries + 1)
              0
              held
              attempts
              (record v { breaker = b })
  unfolding send_provider_request admit
  send-admitted c attempts v admitted = ground arith
