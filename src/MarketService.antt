-- ===== src/MarketService.antt =====
-- src/backend/market/market.service.ts: snapshots of markets from a cache, or from one upstream call that
-- all who ask meanwhile share. What the chain of venues answers is an argument, and so are the readings
-- of the clock and whether a venue of the market is available. Counters are left out,
-- and an age is cut at 0 where the clock has stepped back, which the code does not do.
use Prim.Native.String.{String, ◌++◌ as append_text}
use text.Mathlib.Text.{◌==◌ as str_eq}
use buy_not_buy_com.Common.{
  ℕ, zero, suc, ◌+◌, ◌-◌, min, max, Bool, true, false, not, Option, some, none, List, [], ◌∷◌, ◌++◌,
  length, ltb, if◌then◌else◌,
}
use buy_not_buy_com.Common.Dict.{Dict, lookup, insert}
use buy_not_buy_com.Number.{Number}
use buy_not_buy_com.CandleSeries.{Candle, MarketDataError, assert_candle_series}
use buy_not_buy_com.Freshness.{MarketFreshness, MarketLimits, FreshnessInput, classify_freshness}
pub mod Sound
pub mod Calls
pub mod Fallback
pub mod Fetch
pub mod Served
mod Tests

pub record MarketRequest : Type 0 where
  pub instrument : String
  pub interval : String

-- A request of a caller, that may name neither.
pub record PartialRequest : Type 0 where
  pub instrument : Option String
  pub interval : Option String

-- `marketConfig`, `requiredCandleCount()`, `MAX_CANDLE_LIMIT` and `CANDLE_INTERVAL_MS`, with
-- `toUpperCase` of texts.
pub record MarketConfig (N : Type 0) : Type 0 where
  pub symbol : String
  pub candle_interval : String
  pub limits : MarketLimits
  pub default_candle_limit : ℕ
  pub required_candle_count : ℕ
  pub max_candle_limit : ℕ
  pub interval_ms : String → N
  pub to_upper_case : String → String

pub record AssetPrice (N : Type 0) : Type 0 where
  pub symbol : String
  pub price : N

pub record MarketData (N : Type 0) : Type 0 where
  pub price : AssetPrice N
  pub candles : List (Candle N)
  pub provider : String
  pub symbol : String
  pub interval : String
  pub timestamp : N

pub record MarketDataResult (N : Type 0) : Type 0 where
  pub data_of : MarketData N
  pub stale : Bool
  pub age_ms : ℕ
  pub provider : String
  pub freshness : MarketFreshness

pub record CacheEntry (N : Type 0) : Type 0 where
  pub data_of : MarketData N
  pub fetched_at : ℕ

-- What the chain of venues answers.
pub record Attributed (N : Type 0) : Type 0 where
  pub venue : String
  pub symbol : String
  pub interval : String
  pub candles : List (Candle N)

pub data FetchError : Type 0 where
  chain_failed different_symbol different_interval no_candles : FetchError
  bad_series : MarketDataError → FetchError

pub data Fetched (N : Type 0) : Type 0 where
  fetched : MarketData N → Fetched N
  failed : FetchError → Fetched N

pub data Answer (N : Type 0) : Type 0 where
  returned : MarketDataResult N → Answer N
  threw : FetchError → Answer N

-- A value of `inFlight`: the request that started it, and the calls that await it.
pub record Flight : Type 0 where
  pub request : MarketRequest
  pub waiting : List (ℕ × MarketRequest)

-- The answers that calls have had, with what they asked for and the instant of the answer; a call is
-- named by a number.
pub record MarketService (N : Type 0) : Type 0 where
  pub cache : Dict (CacheEntry N)
  pub in_flight : Dict Flight
  pub answers : List ((ℕ × MarketRequest) × ℕ × Answer N)

-- What the event loop brings, in any order: a call with its number and its instant, or the settling of
-- the call upstream under a key, with the answer of the chain (`none` when it threw).
pub data MarketEvent (N : Type 0) : Type 0 where
  asks : ℕ → PartialRequest → ℕ → Bool → MarketEvent N
  settles : String → Option (Attributed N) → ℕ → ℕ → Bool → MarketEvent N

-- `at(-1)`.
abbrev pub last_candle : {N : Type 0} → List (Candle N) → Option (Candle N)
last_candle [] = none
last_candle (c ∷ []) = some c
last_candle (c ∷ d ∷ cs) = last_candle (d ∷ cs)

-- `map.delete(key)`.
unfoldable pub delete : {V : Type 0} → String → Dict V → Dict V
delete k [] = []
delete k ((key, v) ∷ rest) =
    let kept = delete k rest in if str_eq key k then kept else (key, v) ∷ kept

abbrev pub or_text : Option String → String → String
or_text (some s) other = s
or_text none other = other

abbrev pub is_stale : MarketFreshness → Bool
is_stale MarketFreshness.stale = true
is_stale _ = false

module _ {N : Type 0} ⦃n : Number N⦄ (cfg : MarketConfig N) where
  open n use {of_nat, add}

  pub market_key : MarketRequest → String
  market_key r = append_text (cfg.to_upper_case r.instrument) (append_text "|" r.interval)

  pub resolve_request : PartialRequest → MarketRequest
  resolve_request r = record {
    instrument = or_text r.instrument cfg.symbol;
    interval = or_text r.interval cfg.candle_interval;
  }

  pub resolve_candle_limit : ℕ
  resolve_candle_limit =
      min cfg.max_candle_limit (max cfg.default_candle_limit cfg.required_candle_count + 1)

  abbrev pub snapshot : MarketRequest → Attributed N → Option (Candle N) → Fetched N
  snapshot r a none = failed no_candles
  snapshot r a (some c) = fetched (record {
    price = record { symbol = r.instrument; price = c.close };
    candles = a.candles;
    provider = a.venue;
    symbol = r.instrument;
    interval = r.interval;
    timestamp = add c.timestamp (cfg.interval_ms r.interval);
  })

  abbrev pub snapshot_unless : MarketRequest → Attributed N → Option MarketDataError → Fetched N
  snapshot_unless r a (some e) = failed (bad_series e)
  snapshot_unless r a none = snapshot r a (last_candle a.candles)

  -- `none` stands for a chain that threw.
  pub fetch_market_data : MarketRequest → ℕ → Option (Attributed N) → Fetched N
  unfolding assert_candle_series
  fetch_market_data r now none = failed chain_failed
  fetch_market_data r now (some a) =
      if not (str_eq a.symbol r.instrument)
      then failed different_symbol
      else if not (str_eq a.interval r.interval)
      then failed different_interval
      else snapshot_unless r a (
          assert_candle_series a.candles (of_nat now) a.venue cfg.max_candle_limit
            (some (cfg.interval_ms r.interval)))

  -- The `catch` block, at `now`.
  pub serve_fallback : FetchError → ℕ → Bool → Option (CacheEntry N) → Answer N
  unfolding classify_freshness
  serve_fallback e now available none = threw e
  serve_fallback e now available (some entry) =
      let age = now - entry.fetched_at in
      let count = length entry.data_of.candles in
      let freshness = classify_freshness cfg.limits (record {
        age_ms = some age;
        provider_answered = false;
        any_provider_available = available;
        tolerated_issues = [];
        required_candles = some count;
        actual_candles = some count;
      }) in
      if is_stale freshness
      then returned (record {
        data_of = entry.data_of;
        stale = true;
        age_ms = age;
        provider = entry.data_of.provider;
        freshness = freshness;
      })
      else threw e

  abbrev pub fresh_result : MarketData N → MarketDataResult N
  fresh_result d = record {
    data_of = d;
    stale = false;
    age_ms = 0;
    provider = d.provider;
    freshness = MarketFreshness.fresh;
  }

  -- `fetchAndCache` from the answer of the chain on: the new cache, and what its promise settles to.
  -- The clock is read for the check of the candles, and again for the cache or the fallback.
  pub fetch_and_cache :
      MarketRequest
      → Option (Attributed N)
      → ℕ
      → ℕ
      → Bool
      → Dict (CacheEntry N)
      → Dict (CacheEntry N) × Answer N
  unfolding market_key fetch_market_data serve_fallback
  fetch_and_cache r chain checked_at now available cache =
      let key = market_key r in
      elim (fetch_market_data r checked_at chain) [
        | fetched d ↦
            (insert key (record { data_of = d; fetched_at = now }) cache, returned (fresh_result d))
        | failed e ↦ (cache, serve_fallback e now available (lookup key cache))
      ]

  -- A cache hit.
  pub cached_result : ℕ → Bool → CacheEntry N → MarketDataResult N
  unfolding classify_freshness
  cached_result now available entry = record {
    data_of = entry.data_of;
    stale = not available;
    age_ms = now - entry.fetched_at;
    provider = entry.data_of.provider;
    freshness = classify_freshness cfg.limits (record {
      age_ms = some (now - entry.fetched_at);
      provider_answered = false;
      any_provider_available = available;
      tolerated_issues = [];
      required_candles = some cfg.required_candle_count;
      actual_candles = some (length entry.data_of.candles);
    });
  }

  abbrev pub hit : ℕ → Option (CacheEntry N) → Option (CacheEntry N)
  hit now none = none
  hit now (some entry) =
      if ltb (now - entry.fetched_at) cfg.limits.cache_ttl_ms then some entry else none

  abbrev pub join : ℕ × MarketRequest → Option Flight → Flight
  join (caller, r) none = record { request = r; waiting = (caller, r) ∷ [] }
  join (caller, r) (some f) = record f { waiting = f.waiting ++ (caller, r) ∷ [] }

  -- `getMarketData` up to its `await`.
  pub get_market_data : ℕ → PartialRequest → ℕ → Bool → MarketService N → MarketService N
  unfolding resolve_request market_key cached_result
  get_market_data caller request now available s =
      let wanted = resolve_request request in
      let key = market_key wanted in
      elim (hit now (lookup key s.cache)) [
        | some entry ↦ record s {
          answers =
              s.answers
              ++ ((caller, wanted), now, returned (cached_result now available entry)) ∷ [];
        }
        | none ↦ record s {
          in_flight = insert key (join (caller, wanted) (lookup key s.in_flight)) s.in_flight;
        }
      ]

  abbrev pub answer_all :
      ℕ → Answer N → List (ℕ × MarketRequest) → List ((ℕ × MarketRequest) × ℕ × Answer N)
  answer_all now a [] = []
  answer_all now a (c ∷ cs) = (c, now, a) ∷ answer_all now a cs

  -- The call of a flight settles: all that await it have its answer, and `finally` forgets it.
  pub settle_flight :
      String → Option (Attributed N) → ℕ → ℕ → Bool → MarketService N → MarketService N
  unfolding fetch_and_cache
  settle_flight key chain checked_at now available s = elim (lookup key s.in_flight) [
    | none ↦ s
    | some f ↦
        let (cache, answer) = fetch_and_cache f.request chain checked_at now available s.cache in
        record {
          cache = cache;
          in_flight = delete key s.in_flight;
          answers = s.answers ++ answer_all now answer f.waiting;
        }
  ]

  pub step_service : MarketService N → MarketEvent N → MarketService N
  unfolding get_market_data settle_flight
  step_service s (asks caller request now available) =
      get_market_data caller request now available s
  step_service s (settles key chain checked_at now available) =
      settle_flight key chain checked_at now available s

  unfoldable pub run_service : MarketService N → List (MarketEvent N) → MarketService N
  unfolding step_service
  run_service s [] = s
  run_service s (e ∷ es) = run_service (step_service s e) es

abbrev pub empty_service : {N : Type 0} → MarketService N
empty_service = record { cache = []; in_flight = []; answers = [] }
