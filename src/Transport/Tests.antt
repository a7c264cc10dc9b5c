-- ===== src/Transport/Tests.antt =====
-- Requests of a provider on concrete attempts.
use buy_not_buy_com.Common.{
  ℕ, zero, suc, ◌+◌, ◌≤◌, ◌≡◌, ◌^◌, refl, true, false, some, none, List, [], ◌∷◌, ◌++◌,
  if◌then◌else◌, arith,
}
use buy_not_buy_com.Breaker.{Options, new, try_acquire}
use buy_not_buy_com.ProviderHealth.{Normaliser}
use buy_not_buy_com.Transport.{
  TransportConfig, Host, Fetched, replied, fetch_threw, Attempt, Progress, Venue, backoff_delay_ms,
}
use buy_not_buy_com.Transport.Request.{Admission, admit, send_provider_request}
use buy_not_buy_com.Transport.Attempts.{ends_at, result_of}
use buy_not_buy_com.Transport.Counting.{count_after, send_provider_request_exact}
use buy_not_buy_com.Transport.Overlap.{
  Event, begins, settles, run_world, any_holds, reservation_has_holder, idle_venue_asked,
  idle_market, InFlight,
}

abbrev cfg : TransportConfig
cfg = record {
  circuit_failure_threshold = 2;
  circuit_cooldown_ms = 1000;
  max_retries = 2;
  max_retry_after_ms = 60000;
  retry_base_delay_ms = 100;
  retry_max_delay_ms = 1000;
}

abbrev host : Host
host = record { is_blank = λ s. false; seconds_as_ms = λ s. some 0; parse_date = λ s. none }

abbrev plain : Normaliser
plain = record { to_lower_case = λ s. s; trim_to_upper_case = λ s. s }

abbrev options : Options
options = record { failure_threshold = 2; cooldown_ms = 1000 }

abbrev fresh : Venue
fresh = record { breaker = new options; records = [] }

abbrev attempt_at : ℕ → Fetched → Attempt
attempt_at t f = record {
  fetched = f;
  elapsed_ms = 5;
  parsed_at = t;
  breaker_at = t;
  breaker_again = t;
  health_at = t;
  health_again = t;
}

abbrev with_status : ℕ → Fetched
with_status status = replied (record {
  status = status;
  retry_after = some "0";
  used_weight_1 = none;
  used_weight = some "7";
  used_weight_1m = none;
})

abbrev lost : Fetched
lost = fetch_threw false false

abbrev admission_at : ℕ → Admission
admission_at t = record {
  asked_at = t;
  acquired_at = t;
  acquired_again = t;
  refused_at = t;
  refused_again = t;
  noted_at = t;
}

-- A lost connection, a 503, and then an answer.
abbrev bumpy : ℕ → Attempt
bumpy zero = attempt_at 10 lost
bumpy (suc zero) = attempt_at 20 (with_status 503)
bumpy (suc (suc k)) = attempt_at 30 (with_status 200)

-- A delay drawn at a half of the greatest is half of the doubled base.
backoff_doubles : backoff_delay_ms cfg 2 (2 ^ 52) ≡ 200
unfolding backoff_delay_ms
backoff_doubles = refl

send_provider_request_exact_example :
    let (v, result) =
      send_provider_request cfg host plain "okx" "BTC" (admission_at 0) bumpy fresh in
    (k : ℕ) × (k ≤ 2)
    × (ends_at cfg bumpy k ≡ true)
    × (result ≡ some (result_of cfg host plain "okx" "BTC" (bumpy k)))
    × (v.breaker.consecutive_failures ≡ count_after "okx" 2 (bumpy k) (0 + k))
unfolding new try_acquire
send_provider_request_exact_example =
    send_provider_request_exact cfg host plain "okx" "BTC" (admission_at 0) bumpy fresh refl

abbrev opening : List Event
opening =
    begins (admission_at 0)
    ∷ begins (admission_at 0)
    ∷ settles 1 (attempt_at 10 lost)
    ∷ settles 1 (attempt_at 20 lost)
    ∷ begins (admission_at 1030)
    ∷ []

reservation_has_holder_example :
    any_holds (run_world cfg host plain "okx" "BTC" (idle_market options []) opening).in_flight
    ≡ true
unfolding run_world new
reservation_has_holder_example =
    reservation_has_holder cfg host plain "okx" "BTC" options [] opening refl

-- Two requests whose venue is lost, so that the breaker opens, and both are over.
abbrev outage : List Event
outage =
    begins (admission_at 0)
    ∷ settles 0 (attempt_at 10 lost)
    ∷ settles 0 (attempt_at 20 lost)
    ∷ settles 0 (attempt_at 30 lost)
    ∷ []

idle_venue_asked_example :
    (admit cfg host plain "okx" "BTC"
      (admission_at 1030)
      (run_world cfg host plain "okx" "BTC" (idle_market options []) outage).venue).progress
    ≡ Progress.again
unfolding run_world new
idle_venue_asked_example =
    idle_venue_asked cfg host plain "okx" "BTC" options [] outage (admission_at 1030) refl
      (omega arith)

abbrev holders : List InFlight → ℕ
holders [] = 0
holders (r ∷ rs) = if r.probe_held then suc (holders rs) else holders rs

-- An older request that is throttled frees the reservation of the probe that is still in flight, and a
-- second probe is let through beside it.
two_probes :
    holders (
      (run_world cfg host plain "okx" "BTC" (idle_market options []) (
        opening
        ++ settles 0 (attempt_at 1040 (with_status 429))
          ∷ begins (admission_at 1041)
          ∷ [])).in_flight)
    ≡ 2
unfolding run_world new
two_probes = refl
