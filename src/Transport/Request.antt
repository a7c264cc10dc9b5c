-- ===== src/Transport/Request.antt =====
-- sendProviderRequest of src/backend/market/providers/provider-http.ts: its admission, the rounds of its
-- loop, and its `finally` block.
use Prim.Native.String.{String}
use buy_not_buy_com.Common.{
  ℕ, zero, suc, ◌+◌, Bool, false, not, Option, some, none, leb, if◌then◌else◌,
}
use buy_not_buy_com.Breaker.{
  is_closed, state, try_acquire, release_probe, record_success, record_attempt_failure, open_for,
}
use buy_not_buy_com.ProviderHealth.{
  Normaliser, record_provider_success, record_provider_failure, record_provider_rate_limit,
}
use buy_not_buy_com.Transport.{
  TransportConfig, Host, Reply, replied, fetch_threw, Attempt, RequestResult, Progress, Venue,
  Settled, is_rate_limit_status, is_ok, is_self_inflicted, http_status_error, circuit_open_error,
  transport_error, rate_limit_error, resolve_retry_after_ms,
}

-- The `finally` block, for a request that is over.
unfoldable pub with_finally : Bool → Venue → RequestResult → Settled
unfolding release_probe
with_finally held v result = record {
  venue = if held then record v { breaker = release_probe v.breaker } else v;
  probe_held = false;
  progress = Progress.ended result;
}

-- The readings of the clock at admission: of the getter `state`, two of `tryAcquire`, two of the time
-- that is left, and one of the health record.
pub record Admission : Type 0 where
  pub asked_at : ℕ
  pub acquired_at : ℕ
  pub acquired_again : ℕ
  pub refused_at : ℕ
  pub refused_again : ℕ
  pub noted_at : ℕ

abbrev pub going_on : Bool → Venue → Settled
going_on held v = record { venue = v; probe_held = held; progress = Progress.again }

module _ (cfg : TransportConfig) (h : Host) (n : Normaliser) (provider market : String) where
  -- A failure that counts, with the status if there was an answer.
  unfoldable pub note_failure : Attempt → Option ℕ → Venue → Venue
  unfolding record_attempt_failure record_provider_failure
  note_failure a status v = record {
    breaker = record_attempt_failure v.breaker a.breaker_at a.breaker_again;
    records =
        record_provider_failure n provider market a.health_at
          (record { http_status = status; definitive = none }) v.records;
  }

  -- An answer of the venue, good or a 4xx.
  unfoldable pub note_success : Attempt → ℕ → Venue → Venue
  unfolding record_success record_provider_success
  note_success a status v = record {
    breaker = record_success v.breaker;
    records =
        record_provider_success n provider market a.health_at a.elapsed_ms (some status) v.records;
  }

  unfoldable pub note_rate_limit : Attempt → Reply → ℕ → Venue → Venue
  unfolding open_for record_provider_rate_limit
  note_rate_limit a reply ms v = record {
    breaker = open_for v.breaker ms a.breaker_at;
    records =
        record_provider_rate_limit n provider market a.health_at a.health_again ms
          (some reply.status) v.records;
  }

  -- The `catch` block, for an abort of the caller and for any other error.
  unfoldable pub settle_throw : Bool → ℕ → Bool → Bool → Attempt → Venue → Settled
  unfolding with_finally note_failure transport_error
  settle_throw held attempt aborted timed_out a v =
      let noted = note_failure a none v in
      if aborted
      then with_finally held v RequestResult.rethrown
      else if leb cfg.max_retries attempt
      then with_finally held noted (RequestResult.refused (transport_error timed_out))
      else going_on held noted

  unfoldable pub settle_reply : Bool → ℕ → Reply → Attempt → Venue → Settled
  unfolding is_rate_limit_status resolve_retry_after_ms note_rate_limit note_success note_failure
      with_finally rate_limit_error http_status_error
  settle_reply held attempt reply a v =
      let ms = resolve_retry_after_ms cfg h reply a.parsed_at in
      let error = RequestResult.refused (http_status_error provider reply.status) in
      if is_rate_limit_status reply.status provider
      then with_finally false (note_rate_limit a reply ms v)
          (RequestResult.refused (rate_limit_error reply ms))
      else if is_ok reply.status
      then with_finally false (note_success a reply.status v) (RequestResult.response reply)
      else if leb 500 reply.status
      then if leb cfg.max_retries attempt
        then with_finally held (note_failure a (some reply.status) v) error
        else going_on held (note_failure a (some reply.status) v)
      else with_finally false (note_success a reply.status v) error

  -- One round of the loop.
  unfoldable pub settle_attempt : Bool → ℕ → Attempt → Venue → Settled
  unfolding settle_throw settle_reply
  settle_attempt held attempt a v = elim a.fetched [
    | replied reply ↦ settle_reply held attempt reply a v
    | fetch_threw aborted timed_out ↦ settle_throw held attempt aborted timed_out a v
  ]

  -- The rounds left are fuel; Attempts shows how many are enough.
  unfoldable pub request_rounds :
      ℕ → ℕ → Bool → (ℕ → Attempt) → Venue → Venue × Option RequestResult
  unfolding settle_attempt
  request_rounds zero attempt held attempts v = (v, none)
  request_rounds (suc left) attempt held attempts v =
      let s = settle_attempt held attempt (attempts attempt) v in
      elim s.progress [
        | Progress.again ↦ request_rounds left (attempt + 1) s.probe_held attempts s.venue
        | Progress.ended result ↦ (s.venue, some result)
      ]

  -- What `sendProviderRequest` does before its loop: a request is admitted, with the reservation or
  -- without it, or is over.
  unfoldable pub admit : Admission → Venue → Settled
  unfolding state try_acquire circuit_open_error record_provider_failure is_self_inflicted
  admit c v =
      let was_probing = not (is_closed (state v.breaker c.asked_at)) in
      let (b, admitted) = try_acquire v.breaker c.acquired_at c.acquired_again in
      let refusal = circuit_open_error b c.refused_at c.refused_again in
      if admitted then going_on was_probing (record v { breaker = b }) else record {
        venue = record {
          breaker = b;
          records =
              record_provider_failure n provider market c.noted_at
                (record {
                  http_status = none;
                  definitive = some (not (is_self_inflicted refusal.kind));
                })
                v.records;
        };
        probe_held = false;
        progress = Progress.ended (RequestResult.refused refusal);
      }

  unfoldable pub send_provider_request :
      Admission → (ℕ → Attempt) → Venue → Venue × Option RequestResult
  unfolding admit request_rounds
  send_provider_request c attempts v =
      let s = admit c v in
      elim s.progress [
        | Progress.again ↦ request_rounds (cfg.max_retries + 1) 0 s.probe_held attempts s.venue
        | Progress.ended result ↦ (s.venue, some result)
      ]
