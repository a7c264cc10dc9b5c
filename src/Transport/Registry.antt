-- ===== src/Transport/Registry.antt =====
-- The breakers of all venues and markets, and the health of a venue over its markets. A key is a pair as
-- in ProviderHealth. A reader makes the breaker that it asks for when there is none yet; since what it
-- made is what the next reader would make, only `breaker_for` returns the changed map.
use Prim.Native.String.{String}
use text.Mathlib.Text.{◌==◌ as str_eq}
use text.Mathlib.TextEquality.{eq_iff}
use buy_not_buy_com.Common.Dict.{mem}
use buy_not_buy_com.Common.{
  ℕ, ◌≤◌, ◌≡◌, Bool, true, Option, some, none, List, [], ◌∷◌, ltb, if◌then◌else◌, arith,
}
use buy_not_buy_com.Breaker.{CircuitBreaker, BreakerState, new, state, reset}
use buy_not_buy_com.ProviderHealth.{
  Key, key_eq, Normaliser, Records, ProviderHealthState, healthy, degraded, rate_limited,
  unavailable, circuit_open, recovering, ProviderHealthSnapshot, record_key, provider_health,
  is_provider_available, known_markets, reset_provider_health,
}
use buy_not_buy_com.Transport.{TransportConfig}

abbrev pub Breakers : Type 0
Breakers = List (Key × CircuitBreaker)

pub record Registry : Type 0 where
  pub breakers : Breakers
  pub records : Records

pub get : Key → Breakers → Option CircuitBreaker
get k [] = none
get k ((key, b) ∷ rest) = if key_eq key k then some b else get k rest

pub set : Key → CircuitBreaker → Breakers → Breakers
set k b [] = (k, b) ∷ []
set k b ((key, old) ∷ rest) = if key_eq key k then (k, b) ∷ rest else (key, old) ∷ set k b rest

-- The order of `SEVERITY`; `severity` of a state that is none of these is infinite.
abbrev pub severity : ProviderHealthState → ℕ
severity healthy = 0
severity recovering = 1
severity degraded = 2
severity rate_limited = 3
severity circuit_open = 4
severity unavailable = 5

abbrev pub worse : ProviderHealthSnapshot → ProviderHealthSnapshot → ProviderHealthSnapshot
worse worst candidate =
    if ltb (severity worst.state) (severity candidate.state) then candidate else worst

module _ (cfg : TransportConfig) (n : Normaliser) where
  pub breaker_for : String → String → Breakers → Breakers × CircuitBreaker
  unfolding get set new
  breaker_for provider market breakers =
      let key = record_key n provider market in
      let created = new (record {
        failure_threshold = cfg.circuit_failure_threshold;
        cooldown_ms = cfg.circuit_cooldown_ms;
      }) in
      elim (get key breakers) [
        | some existing ↦ (breakers, existing)
        | none ↦ (set key created breakers, created)
      ]

  pub provider_circuit_state : String → String → ℕ → Breakers → BreakerState
  unfolding breaker_for state
  provider_circuit_state provider market now breakers =
      state ((breaker_for provider market breakers).1) now

  abbrev pub reset_venue : String → Breakers → Breakers
  reset_venue provider [] = []
  reset_venue provider (((venue, market), b) ∷ rest) =
      let b' = if str_eq venue (n.to_lower_case provider) then reset b else b in
      ((venue, market), b') ∷ reset_venue provider rest

  -- `resetProviderTransport`, with its optional market.
  pub reset_provider_transport : String → Option String → Registry → Registry
  unfolding breaker_for reset reset_provider_health set
  reset_provider_transport provider none r = record {
    breakers = reset_venue provider r.breakers;
    records = reset_provider_health n (some provider) none r.records;
  }
  reset_provider_transport provider (some market) r =
      let (breakers, b) = breaker_for provider market r.breakers in
      record {
        breakers = set (record_key n provider market) (reset b) breakers;
        records = reset_provider_health n (some provider) (some market) r.records;
      }

  pub is_venue_available : ℕ → String → String → ℕ → Registry → Bool
  unfolding is_provider_available provider_circuit_state
  is_venue_available degraded_after provider market now r =
      is_provider_available n degraded_after provider market
        (provider_circuit_state provider market now r.breakers) now r.records

  pub venue_health : ℕ → String → String → ℕ → Registry → ProviderHealthSnapshot
  unfolding provider_health provider_circuit_state
  venue_health degraded_after provider market now r =
      provider_health n degraded_after provider market
        (provider_circuit_state provider market now r.breakers) now r.records

  -- The loop over the markets behind the first.
  pub worst_of :
      (String → ProviderHealthSnapshot)
      → ProviderHealthSnapshot
      → List String
      → ProviderHealthSnapshot
  worst_of health worst [] = worst
  worst_of health worst (market ∷ markets) = worst_of health (worse worst (health market)) markets

  pub summary_of :
      ProviderHealthSnapshot
      → (String → ProviderHealthSnapshot)
      → List String
      → ProviderHealthSnapshot
  unfolding worst_of
  summary_of unknown health [] = unknown
  summary_of unknown health (market ∷ markets) = worst_of health (health market) markets

  -- `default_market` is `marketConfig.symbol`.
  pub venue_health_summary : ℕ → String → String → ℕ → Registry → ProviderHealthSnapshot
  unfolding known_markets provider_health venue_health summary_of
  venue_health_summary degraded_after default_market provider now r =
      summary_of
        (provider_health n degraded_after provider default_market BreakerState.closed now r.records)
        (λ market. venue_health degraded_after provider market now r)
        (known_markets n provider r.records)

  worst_of-start :
      (health : String → ProviderHealthSnapshot) (worst : ProviderHealthSnapshot)
      (markets : List String)
      → severity worst.state ≤ severity (worst_of health worst markets).state
  unfolding worst_of
  worst_of-start health worst [] = omega arith
  worst_of-start health worst (m ∷ ms) =
      ground (arith, worst_of-start health (worse worst (health m)) ms)

  worst_of-bounds :
      (health : String → ProviderHealthSnapshot) (worst : ProviderHealthSnapshot) (market : String)
      (markets : List String)
      → mem market markets ≡ true
      → severity (health market).state ≤ severity (worst_of health worst markets).state
  unfolding worst_of
  worst_of-bounds health worst market [] listed = absurd (ground arith)
  worst_of-bounds health worst market (m ∷ ms) listed = ground (
    arith,
    listed,
    eq_iff m market,
    worst_of-start health (worse worst (health m)) ms,
    worst_of-bounds health (worse worst (health m)) market ms,
  )

  summary_of-bounds :
      (unknown : ProviderHealthSnapshot) (health : String → ProviderHealthSnapshot)
      (market : String) (markets : List String)
      → mem market markets ≡ true
      → severity (health market).state ≤ severity (summary_of unknown health markets).state
  unfolding summary_of
  summary_of-bounds unknown health market [] listed = absurd (ground arith)
  summary_of-bounds unknown health market (m ∷ ms) listed = ground (
    arith,
    listed,
    eq_iff m market,
    worst_of-start health (health m) ms,
    worst_of-bounds health (health m) market ms,
  )

  -- The summary of a venue is no better than the health of any market that the venue has a record for.
  pub venue_health_summary-worst :
      (degraded_after : ℕ) (default_market provider market : String) (now : ℕ) (r : Registry)
      → mem market (known_markets n provider r.records) ≡ true
      → severity (venue_health degraded_after provider market now r).state
        ≤ severity (venue_health_summary degraded_after default_market provider now r).state
  unfolding venue_health_summary
  venue_health_summary-worst degraded_after default_market provider market now r listed =
      summary_of-bounds
        (provider_health n degraded_after provider default_market BreakerState.closed now r.records)
        (λ m. venue_health degraded_after provider m now r) market
        (known_markets n provider r.records) listed
