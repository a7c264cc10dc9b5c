-- ===== src/Freshness.antt =====
-- src/backend/market/market-freshness.ts: how much a caller may trust a snapshot. The limits of the
-- market configuration are an argument.
use buy_not_buy_com.Common.{
  ℕ, Bool, true, false, not, ◌&&◌, ◌||◌, Option, some, none, List, [], ◌∷◌, ltb, length,
  if◌then◌else◌,
}
use buy_not_buy_com.CandleSeries.{CandleSeriesIssue}
pub mod Usable
mod Tests

pub data MarketFreshness : Type 0 where
  fresh provider_failed stale partially_available expired_snapshot unavailable : MarketFreshness

pub record MarketLimits : Type 0 where
  pub cache_ttl_ms : ℕ
  pub max_stale_ms : ℕ

pub record FreshnessInput : Type 0 where
  pub age_ms : Option ℕ
  pub provider_answered : Bool
  pub any_provider_available : Bool
  pub tolerated_issues : List CandleSeriesIssue
  pub required_candles : Option ℕ
  pub actual_candles : Option ℕ

abbrev pub falls_short : Option ℕ → Option ℕ → Bool
falls_short (some required) (some actual) = ltb actual required
falls_short _ _ = false

unfoldable pub is_partial : FreshnessInput → Bool
is_partial i = ltb 0 (length i.tolerated_issues) || falls_short i.required_candles i.actual_candles

abbrev pub classify_age : MarketLimits → FreshnessInput → Option ℕ → MarketFreshness
classify_age limits i none = unavailable
classify_age limits i (some age) =
    if ltb limits.max_stale_ms age
    then expired_snapshot
    else if is_partial i
    then partially_available
    else if ltb limits.cache_ttl_ms age
    then stale
    else if not i.provider_answered && not i.any_provider_available
    then provider_failed
    else fresh

unfoldable pub classify_freshness : MarketLimits → FreshnessInput → MarketFreshness
unfolding is_partial
classify_freshness limits i = classify_age limits i i.age_ms

unfoldable pub is_usable_for_signal : MarketFreshness → Bool
is_usable_for_signal fresh = true
is_usable_for_signal provider_failed = true
is_usable_for_signal _ = false
