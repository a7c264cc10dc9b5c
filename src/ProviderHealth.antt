-- ===== src/ProviderHealth.antt =====
-- src/backend/market/providers/provider-health.ts. The module's map `records` is an association list in
-- the order of insertion. Its keys, a venue and a market that the code joins by a colon, are pairs, which
-- is the same as long as no venue's name has a colon. `toLowerCase` and `trim().toUpperCase()` are the
-- functions of a Normaliser, and each reading of the clock is an argument.
use Prim.Native.String.{String}
use text.Mathlib.Text.{◌==◌ as str_eq}
use buy_not_buy_com.Common.{
  ℕ, zero, suc, ◌+◌, ◌-◌, Bool, true, false, not, ◌&&◌, ◌||◌, Option, some, none, List, [], ◌∷◌,
  ◌++◌, ltb, leb, ◌==◌, map, filter, if◌then◌else◌,
}
use buy_not_buy_com.Common.Dict.{unique}
use buy_not_buy_com.Breaker.{BreakerState, is_opened, is_probing}
pub mod Apart
pub mod State
mod Tests

pub record Normaliser : Type 0 where
  pub to_lower_case : String → String
  pub trim_to_upper_case : String → String

pub data ProviderHealthState : Type 0 where
  healthy degraded rate_limited unavailable circuit_open recovering : ProviderHealthState

pub record ProviderFailureReport : Type 0 where
  pub http_status : Option ℕ
  pub definitive : Option Bool

pub record ProviderRecord : Type 0 where
  pub last_success_at : Option ℕ
  pub last_failure_at : Option ℕ
  pub consecutive_failures : ℕ
  pub last_latency_ms : Option ℕ
  pub last_http_status : Option ℕ
  pub rate_limited_until : ℕ
  pub retry_after_ms : Option ℕ

pub record ProviderHealthSnapshot : Type 0 where
  pub provider : String
  pub market : String
  pub state : ProviderHealthState
  pub circuit : BreakerState
  pub last_success_at : Option ℕ
  pub last_failure_at : Option ℕ
  pub consecutive_failures : ℕ
  pub last_latency_ms : Option ℕ
  pub last_http_status : Option ℕ
  pub retry_after_ms : ℕ
  pub available : Bool

abbrev pub Key : Type 0
Key = String × String

abbrev pub key_eq : Key → Key → Bool
key_eq (venue, market) (venue', market') = str_eq venue venue' && str_eq market market'

abbrev pub Records : Type 0
Records = List (Key × ProviderRecord)

pub empty_record : ProviderRecord
empty_record = record {
  last_success_at = none;
  last_failure_at = none;
  consecutive_failures = 0;
  last_latency_ms = none;
  last_http_status = none;
  rate_limited_until = 0;
  retry_after_ms = none;
}

unfoldable pub find : Key → Records → Option ProviderRecord
find k [] = none
find k ((key, r) ∷ rest) = if key_eq key k then some r else find k rest

unfoldable pub put : Key → ProviderRecord → Records → Records
put k r [] = (k, r) ∷ []
put k r ((key, old) ∷ rest) = if key_eq key k then (k, r) ∷ rest else (key, old) ∷ put k r rest

abbrev pub or_empty : Option ProviderRecord → ProviderRecord
unfolding empty_record
or_empty none = empty_record
or_empty (some r) = r

abbrev pub or_else : Option ℕ → Option ℕ → Option ℕ
or_else (some x) kept = some x
or_else none kept = kept

-- `recordFor`, with the change that its caller makes to the record.
unfoldable pub record_for : Key → (ProviderRecord → ProviderRecord) → Records → Records
unfolding find put
record_for k change records = put k (change (or_empty (find k records))) records

unfoldable pub succeeded : ℕ → ℕ → Option ℕ → ProviderRecord → ProviderRecord
succeeded now latency status r = record r {
  last_success_at = some now;
  consecutive_failures = 0;
  last_latency_ms = some latency;
  last_http_status = or_else status r.last_http_status;
}

abbrev pub is_refusal : Option Bool → Bool
is_refusal (some false) = true
is_refusal _ = false

unfoldable pub failed : ℕ → ProviderFailureReport → ProviderRecord → ProviderRecord
failed now report r = record r {
  last_failure_at = some now;
  last_latency_ms = none;
  last_http_status = or_else report.http_status r.last_http_status;
  consecutive_failures =
      if is_refusal report.definitive then r.consecutive_failures else r.consecutive_failures + 1;
}

-- `now` and `again` are the two readings of the clock.
unfoldable pub throttled : ℕ → ℕ → ℕ → Option ℕ → ProviderRecord → ProviderRecord
throttled now again retry_after status r = record r {
  last_failure_at = some now;
  last_latency_ms = none;
  retry_after_ms = some retry_after;
  rate_limited_until = again + retry_after;
  last_http_status = or_else status r.last_http_status;
}

-- The state of one record.
unfoldable pub state_of : ℕ → BreakerState → ℕ → ProviderRecord → ProviderHealthState
state_of degraded_after circuit now r =
    if is_opened circuit
    then circuit_open
    else if ltb now r.rate_limited_until
    then rate_limited
    else if is_probing circuit
    then recovering
    else if ltb 0 r.consecutive_failures
    then elim r.last_success_at [ none ↦ unavailable | some at ↦ recovering ]
    else elim r.last_success_at [
      | none ↦ degraded
      | some at ↦ if ltb (at + degraded_after) now then degraded else healthy
    ]

abbrev pub is_answering : ProviderHealthState → Bool
is_answering healthy = true
is_answering degraded = true
is_answering recovering = true
is_answering _ = false

module _ (n : Normaliser) where
  unfoldable pub record_key : String → String → Key
  record_key provider market = (n.to_lower_case provider, n.trim_to_upper_case market)

  -- `resetProviderHealth`, with both arguments optional.
  unfoldable pub reset_provider_health : Option String → Option String → Records → Records
  unfolding record_key
  reset_provider_health none market records = []
  reset_provider_health (some provider) (some market) records =
      filter (λ e. not (key_eq e.0 (record_key provider market))) records
  reset_provider_health (some provider) none records =
      filter (λ e. not (str_eq e.0.0 (n.to_lower_case provider))) records

  unfoldable pub record_provider_success : String → String → ℕ → ℕ → Option ℕ → Records → Records
  unfolding record_for record_key succeeded
  record_provider_success provider market now latency status records =
      record_for (record_key provider market) (succeeded now latency status) records

  unfoldable pub record_provider_failure :
      String → String → ℕ → ProviderFailureReport → Records → Records
  unfolding record_for record_key failed
  record_provider_failure provider market now report records =
      record_for (record_key provider market) (failed now report) records

  unfoldable pub record_provider_rate_limit :
      String → String → ℕ → ℕ → ℕ → Option ℕ → Records → Records
  unfolding record_for record_key throttled
  record_provider_rate_limit provider market now again retry_after status records =
      record_for (record_key provider market) (throttled now again retry_after status) records

  unfoldable pub provider_health_state :
      ℕ → String → String → BreakerState → ℕ → Records → ProviderHealthState
  unfolding state_of find record_key
  provider_health_state degraded_after provider market circuit now records =
      state_of degraded_after circuit now (or_empty (find (record_key provider market) records))

  unfoldable pub is_provider_available : ℕ → String → String → BreakerState → ℕ → Records → Bool
  unfolding provider_health_state
  is_provider_available degraded_after provider market circuit now records =
      is_answering (provider_health_state degraded_after provider market circuit now records)

  unfoldable pub provider_health :
      ℕ → String → String → BreakerState → ℕ → Records → ProviderHealthSnapshot
  unfolding provider_health_state find record_key
  provider_health degraded_after provider market circuit now records =
      let r = or_empty (find (record_key provider market) records) in
      let state = provider_health_state degraded_after provider market circuit now records in
      record {
        provider = provider;
        market = market;
        state = state;
        circuit = circuit;
        last_success_at = r.last_success_at;
        last_failure_at = r.last_failure_at;
        consecutive_failures = r.consecutive_failures;
        last_latency_ms = r.last_latency_ms;
        last_http_status = r.last_http_status;
        retry_after_ms = if ltb now r.rate_limited_until then r.rate_limited_until - now else 0;
        available = is_answering state;
      }

  pub known_providers : Records → List String
  known_providers records = unique (map (λ e. e.0.0) records)

  unfoldable pub known_markets : String → Records → List String
  known_markets provider records =
      map (λ e. e.0.1) (filter (λ e. str_eq e.0.0 (n.to_lower_case provider)) records)
