-- ===== src/Transport/Counting.antt =====
-- What a request does to the failures that the breaker of its market counts.
use Prim.Native.String.{String}
use buy_not_buy_com.Common.{
  ℕ, zero, suc, ◌+◌, ◌≤◌, ◌≡◌, refl, ap, ◌∙◌, inl, inr, max, Bool, true, not, some, leb,
  if◌then◌else◌, Bool-cases, arith,
}
use buy_not_buy_com.Breaker.{CircuitBreaker, is_closed, state, try_acquire}
use buy_not_buy_com.ProviderHealth.{Normaliser}
use buy_not_buy_com.Transport.{
  TransportConfig, Host, replied, fetch_threw, Attempt, Venue, is_rate_limit_status,
}
use buy_not_buy_com.Transport.Request.{
  Admission, settle_attempt, request_rounds, send_provider_request,
}
use buy_not_buy_com.Transport.Attempts.{
  are_mendable, is_last, ends_at, result_of, step-again, step-last, send-admitted,
}

-- The count after a last attempt, from the count before it: an abort by the caller leaves it, an answer
-- clears it, a throttle lifts it to the threshold, and every other failure adds one.
abbrev pub count_after : String → ℕ → Attempt → ℕ → ℕ
unfolding is_rate_limit_status
count_after provider threshold a count = elim a.fetched [
  | fetch_threw aborted timed_out ↦ if aborted then count else count + 1
  | replied reply ↦
      if is_rate_limit_status reply.status provider
      then max count threshold
      else if leb 500 reply.status
      then count + 1
      else 0
]

acquire_same :
    (b : CircuitBreaker) (c : Admission)
    → let b' = (try_acquire b c.acquired_at c.acquired_again).0 in
      (b'.consecutive_failures ≡ b.consecutive_failures + 0)
      × (b'.options.failure_threshold ≡ b.options.failure_threshold)
unfolding try_acquire
acquire_same b c = ground arith

module _ (cfg : TransportConfig) (h : Host) (n : Normaliser) (provider market : String) where
  settle-count :
      (held : Bool) (attempt : ℕ) (a : Attempt) (v : Venue)
      → let b = (settle_attempt cfg h n provider market held attempt a v).venue.breaker in
        let count = v.breaker.consecutive_failures in
        (b.consecutive_failures ≡ (
          if is_last cfg attempt a
          then count_after provider v.breaker.options.failure_threshold a count
          else count + 1))
        × (b.options ≡ v.breaker.options)
  unfolding settle_attempt is_rate_limit_status
  settle-count held attempt a v = ground arith

  count_of : Venue → ℕ
  count_of v = v.breaker.consecutive_failures

  rounds-count :
      (left attempt : ℕ) (held : Bool) (attempts : ℕ → Attempt) (v : Venue) (count threshold : ℕ)
      → left + attempt ≡ cfg.max_retries + 1
      → attempt ≤ cfg.max_retries
      → are_mendable attempts attempt ≡ true
      → v.breaker.consecutive_failures ≡ count + attempt
      → v.breaker.options.failure_threshold ≡ threshold
      → (k : ℕ) × (k ≤ cfg.max_retries)
        × (ends_at cfg attempts k ≡ true)
        × ((request_rounds cfg h n provider market left attempt held attempts v).1
            ≡ some (result_of cfg h n provider market (attempts k)))
        × (count_of (request_rounds cfg h n provider market left attempt held attempts v).0
            ≡ count_after provider threshold (attempts k) (count + k))
  unfolding count_of
  rounds-count zero attempt held attempts v count threshold e some_left before counted same =
      absurd (omega arith)
  rounds-count (suc left) attempt held attempts v count threshold e some_left before counted same =
      let s = settle_attempt cfg h n provider market held attempt (attempts attempt) v in
      let (now, kept) = settle-count held attempt (attempts attempt) v in
      elim (Bool-cases (is_last cfg attempt (attempts attempt))) [
        | inl last ↦ (
          attempt,
          some_left,
          ground arith,
          ap (λ r. r.1) (step-last cfg h n provider market left attempt held attempts v last),
          ap (λ r. count_of r.0)
                (step-last cfg h n provider market left attempt held attempts v last)
              ∙ now
              ∙ rw (last, counted, same) refl,
        )
        | inr more ↦
            let (k, bound, ends, result, final) =
              rounds-count left (attempt + 1) s.probe_held attempts s.venue count threshold
                (omega arith) (ground arith) (ground arith) (now ∙ rw (more, counted) (omega arith))
                (ap (λ o. o.failure_threshold) kept ∙ same) in
            (
              k,
              bound,
              ends,
              ap (λ r. r.1) (step-again cfg h n provider market left attempt held attempts v more)
                  ∙ result,
              ap (λ r. count_of r.0)
                    (step-again cfg h n provider market left attempt held attempts v more)
                  ∙ final,
            )
      ]

  -- A request that the breaker admits always returns. It makes attempts up to the first that no retry
  -- can mend, or up to one more than the number of retries, and what it returns is what its last
  -- attempt says: the response, the caller's own error, or a typed error. Each failed attempt before
  -- adds one to the count of its breaker; then an abort by the caller leaves the count, an answer clears
  -- it, a throttle lifts it to the threshold, and any other failure adds one.
  pub send_provider_request_exact :
      (c : Admission) (attempts : ℕ → Attempt) (v : Venue)
      → (try_acquire v.breaker c.acquired_at c.acquired_again).1 ≡ true
      → let (v', result) = send_provider_request cfg h n provider market c attempts v in
        (k : ℕ) × (k ≤ cfg.max_retries)
        × (ends_at cfg attempts k ≡ true)
        × (result ≡ some (result_of cfg h n provider market (attempts k)))
        × (v'.breaker.consecutive_failures
            ≡ count_after provider v.breaker.options.failure_threshold
                (attempts k)
                (v.breaker.consecutive_failures + k))
  unfolding count_of
  send_provider_request_exact c attempts v admitted =
      let b = (try_acquire v.breaker c.acquired_at c.acquired_again).0 in
      let held = not (is_closed (state v.breaker c.asked_at)) in
      let (k, bound, ends, result, count) =
        rounds-count (cfg.max_retries + 1) 0 held attempts (record v { breaker = b })
          v.breaker.consecutive_failures v.breaker.options.failure_threshold (omega arith)
          (omega arith) refl (acquire_same v.breaker c).0 (acquire_same v.breaker c).1 in
      let sent = send-admitted cfg h n provider market c attempts v admitted in
      (k, bound, ends, ap (λ r. r.1) sent ∙ result, ap (λ r. count_of r.0) sent ∙ count)
