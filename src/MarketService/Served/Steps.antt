-- ===== src/MarketService/Served/Steps.antt =====
-- Each event of the service keeps what its cache, its flights and its answers are made of.
use Prim.Native.String.{String}
use text.Mathlib.Text.{◌==◌ as str_eq}
use text.Mathlib.TextEquality.{eq_iff}
use mathlib.Core.Path.{subst}
use mathlib.Core.List.{Mem}
use buy_not_buy_com.Common.{
  ℕ, ◌-◌, ◌≡◌, refl, sym, ap, ◌∙◌, inl, inr, Bool, true, false, Option, some, none, List, [], ◌∷◌,
  length, All, All-append, arith, Bool-cases, Option-cases, if◌then◌else◌,
}
use buy_not_buy_com.Common.Dict.{Dict, lookup, insert, lookup-insert}
use buy_not_buy_com.Number.{Number}
use buy_not_buy_com.Freshness.{classify_freshness}
use buy_not_buy_com.MarketService.{
  MarketRequest, PartialRequest, MarketConfig, MarketData, MarketDataResult, CacheEntry, Attributed,
  FetchError, Answer, returned, threw, Flight, MarketService, MarketEvent, settles, delete,
  market_key, fetch_market_data, serve_fallback, fetch_and_cache, get_market_data, settle_flight,
  answer_all, join, cached_result, resolve_request, fetched, is_stale,
}
use buy_not_buy_com.MarketService.Sound.{hit_cases, fetched_cases, last_candle-nonempty}
use buy_not_buy_com.MarketService.Fetch.{fetch_market_data-fetched}
use buy_not_buy_com.MarketService.Served.{
  IsFetched, market_text, IsServed, IsEntryOf, IsFlightOf, IsAnswered, IsServing,
}

lookup-delete :
    {V : Type 0} (k key : String) (d : Dict V)
    → lookup k (delete key d) ≡ (if str_eq key k then none else lookup k d)
unfolding lookup delete
lookup-delete k key [] = ground arith
lookup-delete k key ((j, w) ∷ rest) =
    ground (arith, eq_iff j key, eq_iff j k, eq_iff key k, lookup-delete k key rest)

module _ {N : Type 0} ⦃n : Number N⦄ (cfg : MarketConfig N) (all : List (MarketEvent N)) where
  insert-IsEntryOf :
      (key asked : String) (e : CacheEntry N) (cache : Dict (CacheEntry N))
      → IsEntryOf cfg all key (some e)
      → IsEntryOf cfg all asked (lookup asked cache)
      → IsEntryOf cfg all asked (lookup asked (insert key e cache))
  insert-IsEntryOf key asked e cache (same, h) old = elim (Bool-cases (str_eq key asked)) [
    | inl here ↦ rw (lookup-insert key asked e cache, here) (same ∙ (eq_iff key asked).0 here, h)
    | inr other ↦ rw (lookup-insert key asked e cache, other) old
  ]

  insert-IsFlightOf :
      (key asked : String) (f : Flight) (flights : Dict Flight)
      → IsFlightOf cfg all key (some f)
      → IsFlightOf cfg all asked (lookup asked flights)
      → IsFlightOf cfg all asked (lookup asked (insert key f flights))
  insert-IsFlightOf key asked f flights h old = elim (Bool-cases (str_eq key asked)) [
    | inl here ↦
        rw (lookup-insert key asked f flights, here)
          (subst (λ k. IsFlightOf cfg all k (some f)) ((eq_iff key asked).0 here) h)
    | inr other ↦ rw (lookup-insert key asked f flights, other) old
  ]

  delete-IsFlightOf :
      (key asked : String) (flights : Dict Flight)
      → IsFlightOf cfg all asked (lookup asked flights)
      → IsFlightOf cfg all asked (lookup asked (delete key flights))
  delete-IsFlightOf key asked flights old = elim (Bool-cases (str_eq key asked)) [
    | inl here ↦ rw (lookup-delete asked key flights, here) tt
    | inr other ↦ rw (lookup-delete asked key flights, other) old
  ]

  if-IsServed :
      (test : Bool) (r : MarketRequest) (at : ℕ) (a b : Answer N)
      → IsServed cfg all r at a
      → IsServed cfg all r at b
      → IsServed cfg all r at (if test then a else b)
  if-IsServed true r at a b h k = h
  if-IsServed false r at a b h k = k

  serve_fallback-IsServed :
      (r : MarketRequest) (e : FetchError) (now : ℕ) (available : Bool)
      (entry : Option (CacheEntry N))
      → IsEntryOf cfg all (market_text cfg all r.instrument r.interval) entry
      → IsServed cfg all r now (serve_fallback cfg e now available entry)
  unfolding serve_fallback
  serve_fallback-IsServed r e now available none h = tt
  serve_fallback-IsServed r e now available (some entry) (same, h) =
      let age = now - entry.fetched_at in
      let count = length entry.data_of.candles in
      let freshness = classify_freshness cfg.limits (record {
        age_ms = some age;
        provider_answered = false;
        any_provider_available = available;
        tolerated_issues = [];
        required_candles = some count;
        actual_candles = some count;
      }) in
      let x : MarketDataResult N = record {
        data_of = entry.data_of;
        stale = true;
        age_ms = age;
        provider = entry.data_of.provider;
        freshness = freshness;
      } in
      if-IsServed (is_stale freshness) r now (returned x) (threw e)
        (entry.fetched_at, h, same, refl, refl) tt

  fetched-IsFetched :
      (r : MarketRequest) (key : String) (chain : Option (Attributed N)) (checked_at now : ℕ)
      (available : Bool) (d : MarketData N)
      → Mem (settles key chain checked_at now available) all
      → fetch_market_data cfg r checked_at chain ≡ fetched d
      → (market_text cfg all d.symbol d.interval ≡ market_text cfg all r.instrument r.interval)
        × IsFetched cfg all d now
  unfolding fetch_market_data
  fetched-IsFetched r key none checked_at now available d settled got = absurd (ground (arith, got))
  fetched-IsFetched r key (some a) checked_at now available d settled got =
      let (same_symbol, same_interval, passed, (c, last, from)) =
        fetch_market_data-fetched cfg r checked_at a d got in
      let (candles, venue, symbol, interval, price_symbol, price, timestamp) = from in
      (
        ap (λ s. market_text cfg all s d.interval) symbol
            ∙ ap (λ i. market_text cfg all r.instrument i) interval,
        record {
          upstream = key;
          chain = a;
          checked_at = checked_at;
          available = available;
          settled = settled;
          candles = candles;
          some_candles = grind (arith, last_candle-nonempty cfg a.candles, last);
          venue = venue;
          symbol = symbol ∙ sym same_symbol;
          interval = interval ∙ sym same_interval;
        },
      )

  fetch_and_cache-IsServed :
      (r : MarketRequest) (key : String) (chain : Option (Attributed N)) (checked_at now : ℕ)
      (available : Bool) (cache : Dict (CacheEntry N))
      → Mem (settles key chain checked_at now available) all
      → ((k : String) → IsEntryOf cfg all k (lookup k cache))
      → let (cache', answer) = fetch_and_cache cfg r chain checked_at now available cache in
        ((k : String) → IsEntryOf cfg all k (lookup k cache')) × IsServed cfg all r now answer
  unfolding market_key fetch_and_cache
  fetch_and_cache-IsServed r key chain checked_at now available cache settled held =
      elim (fetched_cases cfg (fetch_market_data cfg r checked_at chain)) [
        | inl (d, got) ↦
            let (same, h) = fetched-IsFetched r key chain checked_at now available d settled got in
            let entry : CacheEntry N = record { data_of = d; fetched_at = now } in
            rw (fetch_and_cache, got)
              (
                λ k.
                    insert-IsEntryOf (market_text cfg all r.instrument r.interval) k entry cache
                      (same, h) (held k),
                (now, h, same, refl, omega arith),
              )
        | inr (e, lost) ↦
            let text = market_text cfg all r.instrument r.interval in
            rw (fetch_and_cache, lost)
              (held, serve_fallback-IsServed r e now available (lookup text cache) (held text))
      ]

  IsServed-same :
      (r r' : MarketRequest) (at : ℕ) (a : Answer N)
      → market_text cfg all r.instrument r.interval ≡ market_text cfg all r'.instrument r'.interval
      → IsServed cfg all r at a
      → IsServed cfg all r' at a
  IsServed-same r r' at (threw e) same h = tt
  IsServed-same r r' at (returned x) same (t, from, of, venue, age) =
      (t, from, of ∙ same, venue, age)

  answer_all-IsAnswered :
      (r : MarketRequest) (now : ℕ) (a : Answer N) (ws : List (ℕ × MarketRequest))
      → All
          (λ w.
            market_text cfg all w.1.instrument w.1.interval
            ≡ market_text cfg all r.instrument r.interval)
          ws
      → IsServed cfg all r now a
      → All (IsAnswered cfg all) (answer_all cfg now a ws)
  answer_all-IsAnswered r now a [] same h = tt
  answer_all-IsAnswered r now a ((c, w) ∷ ws) (one, same) h =
      (IsServed-same r w now a (sym one) h, answer_all-IsAnswered r now a ws same h)

  join-IsFlightOf :
      (key : String) (caller : ℕ) (r : MarketRequest) (f : Option Flight)
      → market_text cfg all r.instrument r.interval ≡ key
      → IsFlightOf cfg all key f
      → IsFlightOf cfg all key (some (join cfg (caller, r) f))
  join-IsFlightOf key caller r none same h = (same, (same, tt))
  join-IsFlightOf key caller r (some f) same (request, waiting) =
      (request, All-append _ f.waiting ((caller, r) ∷ []) waiting (same, tt))

  pub get_market_data-IsServing :
      (caller : ℕ) (request : PartialRequest) (now : ℕ) (available : Bool) (s : MarketService N)
      → IsServing cfg all s
      → IsServing cfg all (get_market_data cfg caller request now available s)
  unfolding get_market_data market_key cached_result
  get_market_data-IsServing caller request now available s h =
      let r = resolve_request cfg request in
      let key = market_key cfg r in
      elim (hit_cases cfg now (lookup key s.cache)) [
        | inl (entry, hits, found, young) ↦
            let (same, from) = subst (IsEntryOf cfg all key) found (h.cached key) in
            let answer : Answer N = returned (cached_result cfg now available entry) in
            rw (get_market_data, hits)
              (record {
                cached = h.cached;
                flying = h.flying;
                given =
                    All-append (IsAnswered cfg all) s.answers (((caller, r), now, answer) ∷ [])
                      h.given ((entry.fetched_at, from, same, refl, refl), tt);
              })
        | inr missed ↦
            let flight = join cfg (caller, r) (lookup key s.in_flight) in
            rw (get_market_data, missed)
              (record {
                cached = h.cached;
                flying = λ k.
                    insert-IsFlightOf key k flight s.in_flight
                      (join-IsFlightOf key caller r (lookup key s.in_flight) refl (h.flying key))
                      (h.flying k);
                given = h.given;
              })
      ]

  pub settle_flight-IsServing :
      (key : String) (chain : Option (Attributed N)) (checked_at now : ℕ) (available : Bool)
      (s : MarketService N)
      → Mem (settles key chain checked_at now available) all
      → IsServing cfg all s
      → IsServing cfg all (settle_flight cfg key chain checked_at now available s)
  unfolding settle_flight
  settle_flight-IsServing key chain checked_at now available s settled h =
      elim (Option-cases (lookup key s.in_flight)) [
        | inl absent ↦ rw (settle_flight, absent) h
        | inr (f, found) ↦
            let (request, waiting) = subst (IsFlightOf cfg all key) found (h.flying key) in
            let (held, served) =
              fetch_and_cache-IsServed f.request key chain checked_at now available s.cache settled
                h.cached in
            let answer = (fetch_and_cache cfg f.request chain checked_at now available s.cache).1 in
            rw (settle_flight, found)
              (record {
                cached = held;
                flying = λ k. delete-IsFlightOf key k s.in_flight (h.flying k);
                given =
                    All-append (IsAnswered cfg all) s.answers (answer_all cfg now answer f.waiting)
                      h.given
                      (answer_all-IsAnswered f.request now answer f.waiting (rw request waiting)
                        served);
              })
      ]
