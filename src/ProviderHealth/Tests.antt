-- ===== src/ProviderHealth/Tests.antt =====
-- Runs of the health records, and the theorems at concrete records.
use buy_not_buy_com.Common.{◌≤◌, ◌≡◌, refl, some, none, List, [], ◌∷◌, filter, arith}
use buy_not_buy_com.Common.Dict.{unique_from}
use buy_not_buy_com.Breaker.{closed}
use buy_not_buy_com.ProviderHealth.{
  Normaliser, record_key, Records, find, rate_limited, provider_health_state, reset_provider_health,
  known_providers, known_markets, provider_health, or_empty,
}
use buy_not_buy_com.ProviderHealth.Apart.{
  Report, success, failure, rate_limit, apply, apply_all, is_about, records_apart,
}
use buy_not_buy_com.ProviderHealth.State.{record_of}

-- The names here are in their normal form already.
abbrev plain : Normaliser
plain = record { to_lower_case = λ s. s; trim_to_upper_case = λ s. s }

abbrev reports : List Report
reports =
    success "binance" "BTCUSDT" 10 5 (some 200)
    ∷ failure "binance" "ETHUSDT" 12 (record { http_status = some 503; definitive = none })
    ∷ rate_limit "binance" "BTCUSDT" 20 20 30 (some 429)
    ∷ []

abbrev known : Records
known = apply_all plain reports []

limited : provider_health_state plain 100 "binance" "BTCUSDT" closed 40 known ≡ rate_limited
unfolding apply_all apply or_empty provider_health_state
limited = refl

one_provider : known_providers plain known ≡ "binance" ∷ []
unfolding apply_all apply unique_from known_providers
one_provider = refl

forgets_one :
    known_markets plain "binance"
      (reset_provider_health plain (some "binance") (some "ETHUSDT") known)
    ≡ "BTCUSDT" ∷ []
unfolding apply_all apply known_markets reset_provider_health
forgets_one = refl

waits : (provider_health plain 100 "binance" "BTCUSDT" closed 40 known).retry_after_ms ≡ 10
unfolding apply_all apply or_empty provider_health
waits = refl

records_apart_example :
    provider_health plain 100 "binance" "ETHUSDT" closed 40 known
    ≡ provider_health plain 100 "binance" "ETHUSDT" closed 40
        (apply_all plain (filter (is_about plain "binance" "ETHUSDT") reports) [])
records_apart_example = records_apart plain "binance" "ETHUSDT" reports [] [] refl 100 40 closed

no_window : (record_of plain "binance" "ETHUSDT" known).rate_limited_until ≤ 40
unfolding apply_all apply or_empty find record_key
no_window = omega arith
