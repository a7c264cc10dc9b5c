-- ===== src/MarketService/Tests.antt =====
-- One market that is asked for while its venue answers, and when it fails.
use buy_not_buy_com.Common.{
  ℕ, ◌+◌, ◌-◌, All, Bool, ◌==◌, ◌≤◌, ◌<◌, ◌≡◌, ◌↔◌, refl, true, false, some, none, List, [], ◌∷◌,
}
use buy_not_buy_com.Common.Dict.{lookup}
use buy_not_buy_com.Number.Integers.{Integer, int, integer_number}
use buy_not_buy_com.CandleSeries.{
  Candle, assert_candle_series, find_candle_series_issues, candle_issues, candle_issue,
  is_all_finite, is_negative, is_inconsistent, interval_issue, find_candle_continuity_issue,
}
use buy_not_buy_com.MarketService.{
  MarketRequest, PartialRequest, MarketConfig, CacheEntry, Attributed, chain_failed, MarketEvent,
  asks, settles, empty_service, run_service, last_candle, market_key, fetch_market_data,
  fetch_and_cache,
}
use buy_not_buy_com.MarketService.Served.{IsSound}
use buy_not_buy_com.MarketService.Served.Answers.{answers_are_sound}
use buy_not_buy_com.MarketService.Calls.{
  answered, asked, waits, is_distinct, every_call_is_accounted,
}
use buy_not_buy_com.MarketService.Fallback.{is_returned, fallback_exact}
use buy_not_buy_com.MarketService.Fetch.{IsFrom, fetch_market_data-fetched}

abbrev cfg : MarketConfig Integer
cfg = record {
  symbol = "BTC";
  candle_interval = "1h";
  limits = record { cache_ttl_ms = 60; max_stale_ms = 3600 };
  default_candle_limit = 10;
  required_candle_count = 1;
  max_candle_limit = 1000;
  interval_ms = λ s. int 1000;
  to_upper_case = λ s. s;
}

abbrev bar : ℕ → Candle Integer
bar t = record {
  timestamp = int t;
  open_price = int 100;
  high = int 110;
  low = int 90;
  close = int 105;
  volume = int 7;
}

abbrev chain : Attributed Integer
chain = record {
  venue = "okx";
  symbol = "BTC";
  interval = "1h";
  candles = bar 1000 ∷ bar 2000 ∷ [];
}

abbrev anything : PartialRequest
anything = record { instrument = none; interval = none }

-- Two calls share one answer, a third is served from the cache, and a fourth finds the venue lost.
abbrev day : List (MarketEvent Integer)
day =
    asks 1 anything 3000 true
    ∷ asks 2 anything 3001 true
    ∷ settles "BTC|1h" (some chain) 3005 3006 true
    ∷ asks 3 anything 3010 true
    ∷ asks 4 anything 3100 false
    ∷ settles "BTC|1h" none 3101 3101 false
    ∷ []

answers_are_sound_example : All (IsSound cfg day) (run_service cfg empty_service day).answers
answers_are_sound_example = answers_are_sound cfg day

-- The calls of caller 2.
abbrev by_second : ℕ × MarketRequest → Bool
by_second (caller, r) = caller == 2

one_second : asked cfg by_second day ≡ 1
one_second = refl

every_call_is_accounted_example :
    let s = run_service cfg empty_service day in
    (answered by_second s.answers + waits by_second s.in_flight ≡ asked cfg by_second day)
    × (is_distinct s.in_flight ≡ true)
every_call_is_accounted_example = every_call_is_accounted cfg by_second day

abbrev held : CacheEntry Integer
held = record {
  data_of = record {
    price = record { symbol = "BTC"; price = int 105 };
    candles = bar 1000 ∷ bar 2000 ∷ [];
    provider = "okx";
    symbol = "BTC";
    interval = "1h";
    timestamp = int 3000;
  };
  fetched_at = 3006;
}

abbrev wanted : MarketRequest
wanted = record { instrument = "BTC"; interval = "1h" }

fallback_exact_example :
    let (cache', answer) =
      fetch_and_cache cfg wanted none 3066 3066 false (("BTC|1h", held) ∷ []) in
    (cache' ≡ (("BTC|1h", held) ∷ []))
    × ((is_returned cfg answer ≡ true) ↔ ((60 < 3066 - 3006) × (3066 - 3006 ≤ 3600)))
unfolding fetch_market_data market_key lookup
fallback_exact_example =
    fallback_exact cfg wanted none 3066 3066 false (("BTC|1h", held) ∷ []) chain_failed held refl
      refl

fetch_market_data-fetched_example :
    (chain.symbol ≡ wanted.instrument)
    × (chain.interval ≡ wanted.interval)
    × (assert_candle_series chain.candles (int 3005) "okx" 1000 (some (int 1000)) ≡ none)
    × ((c : Candle Integer) × (last_candle chain.candles ≡ some c)
        × IsFrom cfg wanted chain c held.data_of)
unfolding fetch_market_data find_candle_series_issues candle_issues candle_issue is_all_finite
    is_negative is_inconsistent interval_issue find_candle_continuity_issue assert_candle_series
fetch_market_data-fetched_example =
    fetch_market_data-fetched cfg wanted 3005 chain held.data_of refl
