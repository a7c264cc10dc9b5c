-- ===== src/MarketService/Fallback.antt =====
-- When a failed call upstream is answered by the last snapshot.
use buy_not_buy_com.Common.{
  ℕ, ◌-◌, ◌≤◌, ◌<◌, ◌≡◌, ◌↔◌, refl, Bool, true, false, Option, some, arith,
}
use buy_not_buy_com.Common.Dict.{Dict, lookup}
use buy_not_buy_com.Number.{Number}
use buy_not_buy_com.MarketService.{
  MarketRequest, MarketConfig, CacheEntry, Attributed, FetchError, failed, Answer, returned, threw,
  market_key, fetch_market_data, serve_fallback, fetch_and_cache,
}

module _ {N : Type 0} ⦃n : Number N⦄ (cfg : MarketConfig N) where
  abbrev pub is_returned : Answer N → Bool
  is_returned (returned x) = true
  is_returned (threw e) = false

  pub fails_to :
      (r : MarketRequest) (chain : Option (Attributed N)) (checked_at now : ℕ) (available : Bool)
      (cache : Dict (CacheEntry N)) (e : FetchError)
      → fetch_market_data cfg r checked_at chain ≡ failed e
      → fetch_and_cache cfg r chain checked_at now available cache
        ≡ (cache, serve_fallback cfg e now available (lookup (market_key cfg r) cache))
  unfolding fetch_and_cache
  fails_to r chain checked_at now available cache e fails = ground (arith, fails)

  fallback_age :
      (e : FetchError) (now : ℕ) (available : Bool) (entry : CacheEntry N)
      → (is_returned (serve_fallback cfg e now available (some entry)) ≡ true) ↔ (
          (cfg.limits.cache_ttl_ms < now - entry.fetched_at)
          × (now - entry.fetched_at ≤ cfg.limits.max_stale_ms))
  unfolding serve_fallback
  fallback_age e now available entry = ground arith

  -- A call upstream that fails changes nothing of the cache, and the last snapshot of the market is served
  -- in its place exactly if that snapshot is older than the cache keeps one and no older than the bound
  -- for stale ones: one whose age is just the time that the cache keeps it is not served.
  pub fallback_exact :
      (r : MarketRequest) (chain : Option (Attributed N)) (checked_at now : ℕ) (available : Bool)
      (cache : Dict (CacheEntry N)) (e : FetchError) (entry : CacheEntry N)
      → fetch_market_data cfg r checked_at chain ≡ failed e
      → lookup (market_key cfg r) cache ≡ some entry
      → let (cache', answer) = fetch_and_cache cfg r chain checked_at now available cache in
        (cache' ≡ cache)
        × ((is_returned answer ≡ true) ↔ (
            (cfg.limits.cache_ttl_ms < now - entry.fetched_at)
            × (now - entry.fetched_at ≤ cfg.limits.max_stale_ms)))
  fallback_exact r chain checked_at now available cache e entry fails found =
      rw (fails_to r chain checked_at now available cache e fails, found)
        (refl, fallback_age e now available entry)
