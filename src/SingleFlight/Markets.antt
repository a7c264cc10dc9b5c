-- ===== src/SingleFlight/Markets.antt =====
-- One coalescer per market: createKeyedSingleFlight.
use Prim.Native.String.{String}
use text.Mathlib.Text.{◌==◌ as str_eq}
use text.Mathlib.TextEquality.{eq_iff}
use buy_not_buy_com.Common.{◌≡◌, refl, List, [], ◌∷◌, arith, if◌then◌else◌}
use buy_not_buy_com.Common.Dict.{Dict, lookup-insert}
use buy_not_buy_com.SingleFlight.{
  SingleFlight, Event, step_flight, run_flight, for_market, step_market, run_markets,
}

module _ {A : Type 0} where
  -- The events of one market, in their order.
  abbrev pub events_of : String → List (String × Event A) → List (Event A)
  events_of key [] = []
  events_of key ((j, e) ∷ es) = if str_eq j key then e ∷ events_of key es else events_of key es

  for_market-step :
      (key j : String) (e : Event A) (flights : Dict (SingleFlight A))
      → for_market key (step_market flights (j, e))
        ≡ (if str_eq j key then step_flight (for_market key flights) e else for_market key flights)
  unfolding for_market step_market
  for_market-step key j e flights =
      ground
        (arith, eq_iff j key, lookup-insert j key (step_flight (for_market j flights) e) flights)

  -- Markets do not mix: over any events of any markets, the coalescer of a market is what its own
  -- events make of it, whatever the others do in between.
  pub run_markets_apart :
      (key : String) (es : List (String × Event A)) (flights : Dict (SingleFlight A))
      → for_market key (run_markets flights es)
        ≡ run_flight (for_market key flights) (events_of key es)
  unfolding run_markets run_flight
  run_markets_apart key [] flights = refl
  run_markets_apart key ((j, e) ∷ es) flights = ground (
    arith,
    for_market-step key j e flights,
    run_markets_apart key es (step_market flights (j, e)),
  )
