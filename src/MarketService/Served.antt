-- ===== src/MarketService/Served.antt =====
-- What an answer is made of: the settled call upstream that its snapshot comes from, and its age.
use Prim.Native.String.{String, ◌++◌ as append_text}
use text.Mathlib.Text.{◌==◌ as str_eq}
use text.Mathlib.TextEquality.{eq_iff}
use mathlib.Core.Path.{subst}
use mathlib.Core.List.{Mem, mem-cons_self, mem-cons_of_mem}
use buy_not_buy_com.Common.{
  ℕ, ◌-◌, ◌<◌, ◌≤◌, ◌≡◌, refl, sym, ap, ◌∙◌, inl, inr, max, Bool, true, false, Option, some, none,
  List, [], ◌∷◌, length, All, All-append, arith, Bool-cases, Option-cases, if◌then◌else◌,
}
use buy_not_buy_com.Common.Dict.{Dict, lookup, insert, lookup-insert}
use buy_not_buy_com.Number.{Number}
use buy_not_buy_com.Freshness.{classify_freshness}
use buy_not_buy_com.MarketService.{
  MarketRequest, PartialRequest, MarketConfig, MarketData, MarketDataResult, CacheEntry, Attributed,
  FetchError, Answer, returned, threw, Flight, MarketService, MarketEvent, asks, settles,
  empty_service, delete, market_key, fetch_market_data, serve_fallback, fetch_and_cache,
  get_market_data, settle_flight, run_service, answer_all, join, cached_result, resolve_request,
  fetched, is_stale,
}
use buy_not_buy_com.MarketService.Sound.{
  hit_cases, fetched_cases, last_candle-nonempty, answers_sound, run_service-answers_sound,
}
use buy_not_buy_com.MarketService.Fetch.{fetch_market_data-fetched}
pub mod Steps
pub mod Answers

module _ {N : Type 0} ⦃n : Number N⦄ (cfg : MarketConfig N) (all : List (MarketEvent N)) where
  -- A snapshot of what the chain answered to a call upstream that settled at this time: its candles,
  -- which are some, and the venue, the symbol and the interval that the chain named.
  pub record IsFetched (d : MarketData N) (t : ℕ) : Type 0 where
    pub upstream : String
    pub chain : Attributed N
    pub checked_at : ℕ
    pub available : Bool
    pub settled : Mem (settles upstream (some chain) checked_at t available) all
    pub candles : d.candles ≡ chain.candles
    pub some_candles : 0 < length chain.candles
    pub venue : d.provider ≡ chain.venue
    pub symbol : d.symbol ≡ chain.symbol
    pub interval : d.interval ≡ chain.interval

  -- The text that names a market: the symbol up to its case, and the interval.
  abbrev pub market_text : String → String → String
  market_text symbol interval = append_text (cfg.to_upper_case symbol) (append_text "|" interval)

  abbrev pub IsServed : MarketRequest → ℕ → Answer N → Type 0
  IsServed r at (threw e) = Unit
  IsServed r at (returned x) =
      (t : ℕ) × IsFetched x.data_of t
      × (market_text x.data_of.symbol x.data_of.interval ≡ market_text r.instrument r.interval)
      × (x.provider ≡ x.data_of.provider)
      × (x.age_ms ≡ at - t)

  abbrev pub IsEntryOf : String → Option (CacheEntry N) → Type 0
  IsEntryOf key none = Unit
  IsEntryOf key (some e) =
      (market_text e.data_of.symbol e.data_of.interval ≡ key) × IsFetched e.data_of e.fetched_at

  abbrev pub IsFlightOf : String → Option Flight → Type 0
  IsFlightOf key none = Unit
  IsFlightOf key (some f) =
      (market_text f.request.instrument f.request.interval ≡ key)
      × All (λ w. market_text w.1.instrument w.1.interval ≡ key) f.waiting

  abbrev pub IsAnswered : (ℕ × MarketRequest) × ℕ × Answer N → Type 0
  IsAnswered ((caller, r), at, a) = IsServed r at a

  pub record IsServing (s : MarketService N) : Type 0 where
    pub cached : (key : String) → IsEntryOf key (lookup key s.cache)
    pub flying : (key : String) → IsFlightOf key (lookup key s.in_flight)
    pub given : All IsAnswered s.answers

  -- No older than the cache or the fallback allows, and marked stale if it is older than the cache
  -- allows.
  abbrev pub IsRecent : MarketDataResult N → Type 0
  IsRecent x =
      (x.age_ms ≤ max cfg.limits.cache_ttl_ms cfg.limits.max_stale_ms)
      × (x.stale ≡ false → x.age_ms ≤ cfg.limits.cache_ttl_ms)

  abbrev pub IsSound : (ℕ × MarketRequest) × ℕ × Answer N → Type 0
  IsSound (w, at, threw e) = Unit
  IsSound ((caller, r), at, returned x) = IsServed r at (returned x) × IsRecent x
