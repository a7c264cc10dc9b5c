-- ===== src/MarketService/Served/Answers.antt =====
-- Where every answer comes from, over any events.
use mathlib.Core.List.{Mem, mem-cons_self, mem-cons_of_mem}
use buy_not_buy_com.Common.{ℕ, ◌≡◌, true, List, [], ◌∷◌, All, arith}
use buy_not_buy_com.Common.Dict.{lookup}
use buy_not_buy_com.Number.{Number}
use buy_not_buy_com.MarketService.{
  MarketRequest, MarketConfig, Answer, returned, threw, MarketService, MarketEvent, asks, settles,
  empty_service, get_market_data, settle_flight, run_service,
}
use buy_not_buy_com.MarketService.Sound.{answers_sound, run_service-answers_sound}
use buy_not_buy_com.MarketService.Served.{IsAnswered, IsServing, IsSound}
use buy_not_buy_com.MarketService.Served.Steps.{get_market_data-IsServing, settle_flight-IsServing}

module _ {N : Type 0} ⦃n : Number N⦄ (cfg : MarketConfig N) (all : List (MarketEvent N)) where
  run_service-IsServing :
      (s : MarketService N) (es : List (MarketEvent N))
      → ((e : MarketEvent N) → Mem e es → Mem e all)
      → IsServing cfg all s
      → IsServing cfg all (run_service cfg s es)
  unfolding run_service
  run_service-IsServing s [] inside h = h
  run_service-IsServing s (asks caller request now available ∷ es) inside h =
      run_service-IsServing (get_market_data cfg caller request now available s) es
        (λ e m. inside e (mem-cons_of_mem _ m))
        (get_market_data-IsServing cfg all caller request now available s h)
  run_service-IsServing s (settles key chain checked_at now available ∷ es) inside h =
      run_service-IsServing (settle_flight cfg key chain checked_at now available s) es
        (λ e m. inside e (mem-cons_of_mem _ m))
        (settle_flight-IsServing cfg all key chain checked_at now available s
          (inside _ mem-cons_self) h)

  answers-IsSound :
      (answers : List ((ℕ × MarketRequest) × ℕ × Answer N))
      → All (IsAnswered cfg all) answers
      → answers_sound cfg answers ≡ true
      → All (IsSound cfg all) answers
  answers-IsSound [] h bounds = tt
  answers-IsSound ((w, at, threw e) ∷ answers) (served, h) bounds =
      (tt, answers-IsSound answers h bounds)
  answers-IsSound (((caller, r), at, returned x) ∷ answers) (served, h) bounds =
      ((served, grind (arith, bounds)), answers-IsSound answers h (ground (arith, bounds)))

module _ {N : Type 0} ⦃n : Number N⦄ (cfg : MarketConfig N) where
  -- Over any calls and any settlings in any order, every answer of the service is an error or a snapshot
  -- of what the chain answered to one of the calls upstream: it has the candles, the venue, the symbol
  -- and the interval of that answer, and at least one candle; its market is the one that the caller
  -- asked for, up to the case of the symbol and as far as the text of symbol and interval tells them
  -- apart; its age is the time from the settling of that call to the answer, cut at 0; it is no older
  -- than the cache or the fallback allows, and it is marked stale if it is older than the cache allows.
  pub answers_are_sound :
      (es : List (MarketEvent N)) → All (IsSound cfg es) (run_service cfg empty_service es).answers
  unfolding lookup
  answers_are_sound es =
      let start : IsServing cfg es empty_service = record {
        cached = λ key. tt;
        flying = λ key. tt;
        given = tt;
      } in
      answers-IsSound cfg es (run_service cfg empty_service es).answers
        (run_service-IsServing cfg es empty_service es (λ e m. m) start).given
        (run_service-answers_sound cfg es)
