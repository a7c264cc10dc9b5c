-- ===== src/MarketService/Sound.antt =====
-- What holds of the cache, of the calls in flight and of every answer, over any events.
use Prim.Native.String.{String}
use text.Mathlib.Text.{◌==◌ as str_eq}
use text.Mathlib.TextEquality.{eq_iff}
use buy_not_buy_com.Common.{
  ℕ, ◌-◌, ◌≡◌, refl, ◌⊎◌, inl, inr, max, Bool, true, ◌&&◌, ◌||◌, Option, some, none, List, [], ◌∷◌,
  ◌++◌, length, ltb, leb, arith, Bool-cases, Option-cases,
}
use buy_not_buy_com.Common.Dict.{Dict, lookup, insert}
use buy_not_buy_com.Number.{Number}
use buy_not_buy_com.CandleSeries.{Candle}
use buy_not_buy_com.MarketService.{
  MarketRequest, PartialRequest, MarketConfig, MarketData, CacheEntry, Attributed, FetchError,
  Fetched, Answer, returned, threw, Flight, MarketService, MarketEvent, asks, settles,
  empty_service, delete, last_candle, market_key, fetch_market_data, serve_fallback,
  fetch_and_cache, get_market_data, settle_flight, run_service, answer_all, join, fetched, failed,
  cached_result, resolve_request, hit,
}

module _ {N : Type 0} ⦃n : Number N⦄ (cfg : MarketConfig N) where
  -- A snapshot of the market under this key, with candles.
  abbrev pub is_of : String → MarketData N → Bool
  is_of key d =
      str_eq (market_key cfg (record { instrument = d.symbol; interval = d.interval })) key
      && ltb 0 (length d.candles)

  abbrev pub entry_is_of : String → Option (CacheEntry N) → Bool
  entry_is_of key none = true
  entry_is_of key (some e) = is_of key e.data_of

  abbrev pub cache_sound : Dict (CacheEntry N) → Bool
  cache_sound [] = true
  cache_sound ((key, e) ∷ rest) = is_of key e.data_of && cache_sound rest

  abbrev pub all_wait_for : String → List (ℕ × MarketRequest) → Bool
  all_wait_for key [] = true
  all_wait_for key ((caller, r) ∷ rest) = str_eq (market_key cfg r) key && all_wait_for key rest

  abbrev pub flight_is_of : String → Option Flight → Bool
  flight_is_of key none = true
  flight_is_of key (some f) = str_eq (market_key cfg f.request) key && all_wait_for key f.waiting

  abbrev pub flights_sound : Dict Flight → Bool
  flights_sound [] = true
  flights_sound ((key, f) ∷ rest) = flight_is_of key (some f) && flights_sound rest

  -- An answer is an error, or a snapshot of the market that was asked for, no older than the limits
  -- allow, and marked stale if it is older than the cache keeps one.
  abbrev pub is_sound : MarketRequest → Answer N → Bool
  is_sound r (threw e) = true
  is_sound r (returned x) =
      is_of (market_key cfg r) x.data_of
      && str_eq x.provider x.data_of.provider
      && leb x.age_ms (max cfg.limits.cache_ttl_ms cfg.limits.max_stale_ms)
      && (x.stale || leb x.age_ms cfg.limits.cache_ttl_ms)

  abbrev pub answers_sound : List ((ℕ × MarketRequest) × ℕ × Answer N) → Bool
  answers_sound [] = true
  answers_sound (((caller, r), at, a) ∷ rest) = is_sound r a && answers_sound rest

  abbrev pub service_sound : MarketService N → Bool
  service_sound s = cache_sound s.cache && flights_sound s.in_flight && answers_sound s.answers

  lookup_sound :
      (key : String) (cache : Dict (CacheEntry N))
      → cache_sound cache ≡ true
      → entry_is_of key (lookup key cache) ≡ true
  unfolding lookup
  lookup_sound key [] h = refl
  lookup_sound key ((k, e) ∷ rest) h = ground (arith, h, eq_iff k key, lookup_sound key rest)

  insert_sound :
      (key : String) (e : CacheEntry N) (cache : Dict (CacheEntry N))
      → is_of key e.data_of ≡ true
      → cache_sound cache ≡ true
      → cache_sound (insert key e cache) ≡ true
  unfolding insert
  insert_sound key e [] h hs = ground (arith, h)
  insert_sound key e ((k, old) ∷ rest) h hs = ground (arith, h, hs, insert_sound key e rest)

  lookup-flight :
      (key : String) (flights : Dict Flight)
      → flights_sound flights ≡ true
      → flight_is_of key (lookup key flights) ≡ true
  unfolding lookup
  lookup-flight key [] h = refl
  lookup-flight key ((k, f) ∷ rest) h = ground (arith, h, eq_iff k key, lookup-flight key rest)

  insert-flight :
      (key : String) (f : Flight) (flights : Dict Flight)
      → flight_is_of key (some f) ≡ true
      → flights_sound flights ≡ true
      → flights_sound (insert key f flights) ≡ true
  unfolding insert
  insert-flight key f [] h hs = ground (arith, h)
  insert-flight key f ((k, old) ∷ rest) h hs = ground (arith, h, hs, insert-flight key f rest)

  delete-flight :
      (key : String) (flights : Dict Flight)
      → flights_sound flights ≡ true
      → flights_sound (delete key flights) ≡ true
  unfolding delete
  delete-flight key [] h = refl
  delete-flight key ((k, f) ∷ rest) h = ground (arith, h, delete-flight key rest)

  all_wait_for-append :
      (key : String) (ws vs : List (ℕ × MarketRequest))
      → all_wait_for key (ws ++ vs) ≡ (all_wait_for key ws && all_wait_for key vs)
  all_wait_for-append key [] vs = refl
  all_wait_for-append key ((c, r) ∷ ws) vs = ground (arith, all_wait_for-append key ws vs)

  answers_sound-append :
      (xs ys : List ((ℕ × MarketRequest) × ℕ × Answer N))
      → answers_sound (xs ++ ys) ≡ (answers_sound xs && answers_sound ys)
  answers_sound-append [] ys = refl
  answers_sound-append (((c, r), at, a) ∷ xs) ys = ground (arith, answers_sound-append xs ys)

  pub last_candle-nonempty :
      (cs : List (Candle N)) → (last_candle cs ≡ none) ⊎ (ltb 0 (length cs) ≡ true)
  last_candle-nonempty [] = inl refl
  last_candle-nonempty (c ∷ cs) = inr (ground arith)

  abbrev fetched_sound : MarketRequest → Fetched N → Bool
  fetched_sound r (fetched d) = is_of (market_key cfg r) d
  fetched_sound r (failed e) = true

  fetch_market_data_sound :
      (r : MarketRequest) (now : ℕ) (chain : Option (Attributed N))
      → fetched_sound r (fetch_market_data cfg r now chain) ≡ true
  unfolding fetch_market_data
  fetch_market_data_sound r now none = refl
  fetch_market_data_sound r now (some a) =
      ground (arith, last_candle-nonempty a.candles, eq_iff (market_key cfg r) (market_key cfg r))

  serve_fallback_sound :
      (r : MarketRequest) (e : FetchError) (now : ℕ) (available : Bool)
      (entry : Option (CacheEntry N))
      → entry_is_of (market_key cfg r) entry ≡ true
      → is_sound r (serve_fallback cfg e now available entry) ≡ true
  unfolding serve_fallback
  serve_fallback_sound r e now available none h = refl
  serve_fallback_sound r e now available (some entry) h =
      ground (arith, h, eq_iff entry.data_of.provider entry.data_of.provider)

  cached_result_sound :
      (r : MarketRequest) (now : ℕ) (available : Bool) (entry : CacheEntry N)
      → is_of (market_key cfg r) entry.data_of ≡ true
      → ltb (now - entry.fetched_at) cfg.limits.cache_ttl_ms ≡ true
      → is_sound r (returned (cached_result cfg now available entry)) ≡ true
  unfolding cached_result
  cached_result_sound r now available entry h young =
      ground (arith, h, eq_iff entry.data_of.provider entry.data_of.provider)

  pub fetched_cases :
      (f : Fetched N) → ((d : MarketData N) × (f ≡ fetched d)) ⊎ ((e : FetchError) × (f ≡ failed e))
  fetched_cases (fetched d) = inl (d, refl)
  fetched_cases (failed e) = inr (e, refl)

  pub hit_cases :
      (now : ℕ) (o : Option (CacheEntry N))
      → ((e : CacheEntry N) × (hit cfg now o ≡ some e)
          × (o ≡ some e)
          × (ltb (now - e.fetched_at) cfg.limits.cache_ttl_ms ≡ true))
        ⊎ (hit cfg now o ≡ none)
  hit_cases now none = inr refl
  hit_cases now (some e) = elim (Bool-cases (ltb (now - e.fetched_at) cfg.limits.cache_ttl_ms)) [
    | inl young ↦ inl (e, ground arith, refl, young)
    | inr old ↦ inr (ground arith)
  ]

  fetch_and_cache_sound :
      (r : MarketRequest) (chain : Option (Attributed N)) (checked_at now : ℕ) (available : Bool)
      (cache : Dict (CacheEntry N))
      → cache_sound cache ≡ true
      → let (cache', answer) = fetch_and_cache cfg r chain checked_at now available cache in
        (cache_sound cache' && is_sound r answer) ≡ true
  unfolding fetch_and_cache
  fetch_and_cache_sound r chain checked_at now available cache h =
      let key = market_key cfg r in
      elim (fetched_cases (fetch_market_data cfg r checked_at chain)) [
        | inl (d, got) ↦ ground (
          arith,
          h,
          got,
          fetch_market_data_sound r checked_at chain,
          insert_sound key (record { data_of = d; fetched_at = now }) cache,
          eq_iff d.provider d.provider,
        )
        | inr (e, lost) ↦ ground (
          arith,
          h,
          lost,
          lookup_sound key cache,
          serve_fallback_sound r e now available (lookup key cache),
        )
      ]

  answer_all_sound :
      (r : MarketRequest) (now : ℕ) (a : Answer N) (ws : List (ℕ × MarketRequest))
      → is_sound r a ≡ true
      → all_wait_for (market_key cfg r) ws ≡ true
      → answers_sound (answer_all cfg now a ws) ≡ true
  answer_all_sound r now a [] h hs = refl
  answer_all_sound r now (threw e) ((c, w) ∷ ws) h hs =
      ground (arith, hs, answer_all_sound r now (threw e) ws)
  answer_all_sound r now (returned x) ((c, w) ∷ ws) h hs = ground (
    arith,
    h,
    hs,
    eq_iff (market_key cfg w) (market_key cfg r),
    answer_all_sound r now (returned x) ws,
  )

  join_sound :
      (key : String) (caller : ℕ) (r : MarketRequest) (f : Option Flight)
      → str_eq (market_key cfg r) key ≡ true
      → flight_is_of key f ≡ true
      → flight_is_of key (some (join cfg (caller, r) f)) ≡ true
  join_sound key caller r none h hs = ground (arith, h)
  join_sound key caller r (some f) h hs =
      ground (arith, h, hs, all_wait_for-append key f.waiting ((caller, r) ∷ []))

  get_market_data_sound :
      (caller : ℕ) (request : PartialRequest) (now : ℕ) (available : Bool) (s : MarketService N)
      → service_sound s ≡ true
      → service_sound (get_market_data cfg caller request now available s) ≡ true
  unfolding get_market_data
  get_market_data_sound caller request now available s h =
      let wanted = resolve_request cfg request in
      let key = market_key cfg wanted in
      elim (hit_cases now (lookup key s.cache)) [
        | inl (entry, hits, found, young) ↦ ground (
          arith,
          h,
          hits,
          found,
          young,
          lookup_sound key s.cache,
          cached_result_sound wanted now available entry,
          answers_sound-append s.answers
              (((caller, wanted), now, returned (cached_result cfg now available entry)) ∷ []),
        )
        | inr missed ↦ ground (
          arith,
          h,
          missed,
          eq_iff key key,
          lookup-flight key s.in_flight,
          insert-flight key (join cfg (caller, wanted) (lookup key s.in_flight)) s.in_flight,
          join_sound key caller wanted (lookup key s.in_flight),
        )
      ]

  settle_flight_sound :
      (key : String) (chain : Option (Attributed N)) (checked_at now : ℕ) (available : Bool)
      (s : MarketService N)
      → service_sound s ≡ true
      → service_sound (settle_flight cfg key chain checked_at now available s) ≡ true
  unfolding settle_flight
  settle_flight_sound key chain checked_at now available s h =
      elim (Option-cases (lookup key s.in_flight)) [
        | inl absent ↦ ground (arith, h, absent)
        | inr (f, found) ↦
            let (cache, answer) =
              fetch_and_cache cfg f.request chain checked_at now available s.cache in
            ground (
              arith,
              h,
              found,
              lookup-flight key s.in_flight,
              eq_iff (market_key cfg f.request) key,
              delete-flight key s.in_flight,
              fetch_and_cache_sound f.request chain checked_at now available s.cache,
              answer_all_sound f.request now answer f.waiting,
              answers_sound-append s.answers (answer_all cfg now answer f.waiting),
            )
      ]

  run_service_sound :
      (s : MarketService N) (es : List (MarketEvent N))
      → service_sound s ≡ true
      → service_sound (run_service cfg s es) ≡ true
  unfolding run_service
  run_service_sound s [] h = h
  run_service_sound s (asks caller request now available ∷ es) h =
      run_service_sound (get_market_data cfg caller request now available s) es
        (get_market_data_sound caller request now available s h)
  run_service_sound s (settles key chain checked_at now available ∷ es) h =
      run_service_sound (settle_flight cfg key chain checked_at now available s) es
        (settle_flight_sound key chain checked_at now available s h)

  pub run_service-answers_sound :
      (es : List (MarketEvent N)) → answers_sound (run_service cfg empty_service es).answers ≡ true
  run_service-answers_sound es = ground (arith, run_service_sound empty_service es refl)
