-- ===== src/Freshness/Tests.antt =====
-- A snapshot half a minute old while every venue refuses.
use buy_not_buy_com.Common.{◌≡◌, refl, false, some, []}
use buy_not_buy_com.Freshness.{MarketLimits, FreshnessInput, classify_freshness, provider_failed}

abbrev limits : MarketLimits
limits = record { cache_ttl_ms = 60000; max_stale_ms = 600000 }

abbrev outage : FreshnessInput
outage = record {
  age_ms = some 30000;
  provider_answered = false;
  any_provider_available = false;
  tolerated_issues = [];
  required_candles = some 100;
  actual_candles = some 100;
}

outage_seen : classify_freshness limits outage ≡ provider_failed
unfolding classify_freshness
outage_seen = refl
