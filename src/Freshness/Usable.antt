-- ===== src/Freshness/Usable.antt =====
-- Which snapshots a signal may be built on.
use buy_not_buy_com.Common.{ℕ, ◌≤◌, ◌≡◌, ◌↔◌, true, false, Option, some, none, [], arith}
use buy_not_buy_com.Freshness.{
  MarketLimits, FreshnessInput, classify_freshness, is_usable_for_signal,
}

abbrev pub IsYoung : ℕ → Option ℕ → Type 0
IsYoung limit none = true ≡ false
IsYoung limit (some age) = age ≤ limit

abbrev pub IsEnough : Option ℕ → Option ℕ → Type 0
IsEnough (some required) (some actual) = required ≤ actual
IsEnough _ _ = true ≡ true

-- A snapshot may become a signal exactly if there is one, its age is within both limits, no issue of its
-- series was tolerated, and it has the candles required where both numbers are known; whether a venue
-- answers has no part in it.
pub usable_exact :
    (limits : MarketLimits) (i : FreshnessInput)
    → (is_usable_for_signal (classify_freshness limits i) ≡ true) ↔ (
        IsYoung limits.max_stale_ms i.age_ms
        × IsYoung limits.cache_ttl_ms i.age_ms
        × (i.tolerated_issues ≡ [])
        × IsEnough i.required_candles i.actual_candles)
unfolding classify_freshness is_usable_for_signal
usable_exact limits i = ground arith
