-- ===== src/Capability/Tests.antt =====
-- Two venues and their markets.
use Prim.Native.String.{String}
use buy_not_buy_com.Common.{◌≡◌, refl, List, [], ◌∷◌}
use buy_not_buy_com.Common.Dict.{unique_from, sort, insert_sorted, precedes}
use buy_not_buy_com.MarketService.{MarketRequest}
use buy_not_buy_com.Capability.{
  Spelling, VenueCapability, rejected, interval_not_served, route, route_or, first_serving, serves,
  normalise, by_name, any_lists, all_instruments,
}
use buy_not_buy_com.Capability.Choice.{IsRight, route-IsRight}

abbrev plain : Spelling
plain = record { trim = λ s. s; to_upper_case = λ s. s }

abbrev capabilities : List VenueCapability
capabilities =
    record { venue = "binance"; instruments = "ETH" ∷ "BTC" ∷ []; intervals = "1h" ∷ [] }
    ∷ record { venue = "bitget"; instruments = "BTC" ∷ []; intervals = "1d" ∷ [] }
    ∷ []

abbrev daily_eth : MarketRequest
daily_eth = record { instrument = "ETH"; interval = "1d" }

abbrev order : List String
order = "bitget" ∷ "okx" ∷ "binance" ∷ []

interval_is_missing :
    route plain daily_eth capabilities order
    ≡ rejected interval_not_served ("bitget" ∷ "binance" ∷ []) ("BTC" ∷ "ETH" ∷ [])
unfolding route route_or first_serving serves normalise by_name any_lists all_instruments
    unique_from sort insert_sorted precedes
interval_is_missing = refl

route-IsRight_example :
    IsRight plain daily_eth capabilities order (route plain daily_eth capabilities order)
route-IsRight_example = route-IsRight plain daily_eth capabilities order
