-- ===== src/Transport.antt =====
-- src/backend/market/providers/provider-http.ts: one call of a venue with its retries, on the breaker and
-- the health record of its market. What `fetch` did in an attempt, and the readings of the clock that the
-- attempt makes, are its arguments. Telemetry and log texts are left out, and the reading of a header
-- as a number of seconds or as a date is that of a Host.
use Prim.Native.String.{String}
use text.Mathlib.Text.{◌==◌ as str_eq}
use buy_not_buy_com.Common.{
  ℕ, zero, suc, ◌+◌, ◌-◌, ◌*◌, ◌/◌, ◌^◌, min, max, Bool, true, false, not, ◌&&◌, ◌||◌, Option, some,
  none, List, [], ◌∷◌, ltb, leb, ◌==◌, if◌then◌else◌,
}
use buy_not_buy_com.Breaker.{
  CircuitBreaker, is_closed, state, retry_after_ms, try_acquire, release_probe, record_success,
  record_attempt_failure, open_for,
}
use buy_not_buy_com.Failover.{
  ProviderFailureKind, kind_unavailable, kind_timeout, kind_rate_limited, kind_invalid_response,
  kind_circuit_open, status_for_kind, is_kind,
}
use buy_not_buy_com.ProviderHealth.{
  Normaliser, Records, record_provider_success, record_provider_failure, record_provider_rate_limit,
}
pub mod Request
pub mod Attempts
pub mod Counting
pub mod Overlap
pub mod Registry
mod Tests

-- The part of `marketConfig` that is read here.
pub record TransportConfig : Type 0 where
  pub circuit_failure_threshold : ℕ
  pub circuit_cooldown_ms : ℕ
  pub max_retries : ℕ
  pub max_retry_after_ms : ℕ
  pub retry_base_delay_ms : ℕ
  pub retry_max_delay_ms : ℕ

-- `is_blank` is `header.trim() === ''`; `seconds_as_ms` is `Math.round(Number(header) * 1000)` where that
-- number is finite and not negative; `parse_date` is `Date.parse(header)` where it is a number, and 0
-- for a date before 1970.
pub record Host : Type 0 where
  pub is_blank : String → Bool
  pub seconds_as_ms : String → Option ℕ
  pub parse_date : String → Option ℕ

pub record Reply : Type 0 where
  pub status : ℕ
  pub retry_after : Option String
  pub used_weight_1 : Option String
  pub used_weight : Option String
  pub used_weight_1m : Option String

-- Of a thrown error it matters whether the caller's signal is aborted, and whether it is a TimeoutError.
pub data Fetched : Type 0 where
  replied : Reply → Fetched
  fetch_threw : Bool → Bool → Fetched

-- The clock is read by the header's date, by the breaker (twice at most) and by the health record (twice
-- at most), in this order.
pub record Attempt : Type 0 where
  pub fetched : Fetched
  pub elapsed_ms : ℕ
  pub parsed_at : ℕ
  pub breaker_at : ℕ
  pub breaker_again : ℕ
  pub health_at : ℕ
  pub health_again : ℕ

-- A ProviderError without its texts.
pub record TransportError : Type 0 where
  pub kind : ProviderFailureKind
  pub status_code : ℕ
  pub retry_after_seconds : Option ℕ
  pub http_status : Option ℕ
  pub retry_after_ms : Option ℕ
  pub used_weight : Option String

-- `rethrown` is the error of the caller's own abort.
pub data RequestResult : Type 0 where
  response : Reply → RequestResult
  refused : TransportError → RequestResult
  rethrown : RequestResult

pub data Progress : Type 0 where
  again : Progress
  ended : RequestResult → Progress

-- What a request on one market changes.
pub record Venue : Type 0 where
  pub breaker : CircuitBreaker
  pub records : Records

pub record Settled : Type 0 where
  pub venue : Venue
  pub probe_held : Bool
  pub progress : Progress

-- `random` is a fraction of 2 ^ 53, as `Math.random()` is.
pub backoff_delay_ms : TransportConfig → ℕ → ℕ → ℕ
backoff_delay_ms cfg attempt random =
    random * min cfg.retry_max_delay_ms (cfg.retry_base_delay_ms * 2 ^ attempt) / 2 ^ 53

abbrev pub or_date : ℕ → Option ℕ → Option ℕ → Option ℕ
or_date now (some ms) date = some ms
or_date now none (some date) = some (date - now)
or_date now none none = none

pub parse_retry_after_ms : Host → Option String → ℕ → Option ℕ
parse_retry_after_ms h none now = none
parse_retry_after_ms h (some header) now =
    if h.is_blank header then none else or_date now (h.seconds_as_ms header) (h.parse_date header)

abbrev pub bounded_or : ℕ → ℕ → Option ℕ → ℕ
bounded_or most fallback (some ms) = min ms most
bounded_or most fallback none = fallback

pub resolve_retry_after_ms : TransportConfig → Host → Reply → ℕ → ℕ
unfolding parse_retry_after_ms
resolve_retry_after_ms cfg h reply now =
    bounded_or cfg.max_retry_after_ms cfg.circuit_cooldown_ms
      (parse_retry_after_ms h reply.retry_after now)

abbrev pub first_filled : List (Option String) → Option String
first_filled [] = none
first_filled (none ∷ os) = first_filled os
first_filled (some s ∷ os) = let rest = first_filled os in if str_eq s "" then rest else some s

pub read_used_weight : Reply → Option String
read_used_weight r = first_filled (r.used_weight_1 ∷ r.used_weight ∷ r.used_weight_1m ∷ [])

pub is_rate_limit_status : ℕ → String → Bool
is_rate_limit_status status provider = status == 429 || (str_eq provider "binance" && status == 418)

-- `response.ok`.
abbrev pub is_ok : ℕ → Bool
is_ok status = leb 200 status && leb status 299

-- `Math.max(1, Math.round(ms / 1000))`.
abbrev pub whole_seconds : ℕ → ℕ
whole_seconds ms = max 1 ((ms + 500) / 1000)

pub is_self_inflicted : ProviderFailureKind → Bool
is_self_inflicted kind = is_kind kind kind_circuit_open

-- `isRateLimited`, of an error that may be none of the transport's.
pub is_rate_limited : Option TransportError → Bool
is_rate_limited none = false
is_rate_limited (some e) = is_kind e.kind kind_rate_limited

abbrev pub http_kind : String → ℕ → ProviderFailureKind
unfolding is_rate_limit_status
http_kind provider status =
    if is_rate_limit_status status provider
    then kind_rate_limited
    else if leb 500 status
    then kind_unavailable
    else kind_invalid_response

pub http_status_error : String → ℕ → TransportError
unfolding is_rate_limit_status
http_status_error provider status = record {
  kind = http_kind provider status;
  status_code = if is_rate_limit_status status provider || leb 500 status then 503 else 502;
  retry_after_seconds = none;
  http_status = some status;
  retry_after_ms = none;
  used_weight = none;
}

pub circuit_open_error : CircuitBreaker → ℕ → ℕ → TransportError
unfolding retry_after_ms status_for_kind
circuit_open_error b now now' =
    let ms = retry_after_ms b now now' in
    record {
      kind = kind_circuit_open;
      status_code = status_for_kind kind_circuit_open;
      retry_after_seconds = some (whole_seconds ms);
      http_status = none;
      retry_after_ms = some ms;
      used_weight = none;
    }

pub transport_error : Bool → TransportError
unfolding status_for_kind
transport_error timed_out =
    let kind = if timed_out then kind_timeout else kind_unavailable in
    record {
      kind = kind;
      status_code = status_for_kind kind;
      retry_after_seconds = none;
      http_status = none;
      retry_after_ms = none;
      used_weight = none;
    }

pub rate_limit_error : Reply → ℕ → TransportError
unfolding status_for_kind read_used_weight
rate_limit_error reply ms = record {
  kind = kind_rate_limited;
  status_code = status_for_kind kind_rate_limited;
  retry_after_seconds = some (whole_seconds ms);
  http_status = some reply.status;
  retry_after_ms = some ms;
  used_weight = read_used_weight reply;
}
