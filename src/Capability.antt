-- ===== src/Capability.antt =====
-- src/backend/market/capability.ts: which venue serves a market. `trim` and `toUpperCase` are the functions
-- of a Spelling, and the sentence of a refusal is left out.
use Prim.Native.String.{String}
use text.Mathlib.Text.{◌==◌ as str_eq}
use buy_not_buy_com.Common.{
  Bool, true, false, ◌&&◌, ◌||◌, Option, some, none, List, [], ◌∷◌, ◌++◌, filter, if◌then◌else◌,
}
use buy_not_buy_com.Common.Dict.{unique, sort}
use buy_not_buy_com.MarketService.{MarketRequest}
pub mod Choice
mod Tests

pub record Spelling : Type 0 where
  pub trim : String → String
  pub to_upper_case : String → String

pub record VenueCapability : Type 0 where
  pub venue : String
  pub instruments : List String
  pub intervals : List String

pub data RouteRejection : Type 0 where
  no_venues_configured instrument_not_served interval_not_served : RouteRejection

pub data Route : Type 0 where
  routed : String → Route
  rejected : RouteRejection → List String → List String → Route

-- A Map of the capabilities by their venue, where a later one of the same name replaces an earlier.
unfoldable pub by_name : String → List VenueCapability → Option VenueCapability
by_name venue [] = none
by_name venue (c ∷ cs) = elim (by_name venue cs) [
  | some later ↦ some later
  | none ↦ if str_eq c.venue venue then some c else none
]

abbrev pub instruments_of : Option VenueCapability → List String
instruments_of none = []
instruments_of (some c) = c.instruments

abbrev pub is_known : Option VenueCapability → Bool
is_known none = false
is_known (some c) = true

module _ (sp : Spelling) where
  unfoldable pub normalise : String → String
  normalise ticker = sp.to_upper_case (sp.trim ticker)

  abbrev pub lists_instrument : String → List String → Bool
  unfolding normalise
  lists_instrument wanted [] = false
  lists_instrument wanted (ticker ∷ tickers) =
      str_eq (normalise ticker) (normalise wanted) || lists_instrument wanted tickers

  abbrev pub lists_interval : String → List String → Bool
  lists_interval wanted [] = false
  lists_interval wanted (step ∷ steps) =
      str_eq (sp.trim step) (sp.trim wanted) || lists_interval wanted steps

  unfoldable pub serves : VenueCapability → MarketRequest → Bool
  unfolding normalise
  serves c request =
      lists_instrument request.instrument c.instruments
      && lists_interval request.interval c.intervals

  abbrev pub is_serving : MarketRequest → Option VenueCapability → Bool
  unfolding serves
  is_serving request none = false
  is_serving request (some c) = serves c request

  -- The loop over the order of preference.
  unfoldable pub first_serving : MarketRequest → List VenueCapability → List String → Option String
  unfolding serves by_name
  first_serving request caps [] = none
  first_serving request caps (venue ∷ order) =
      let later = first_serving request caps order in
      if is_serving request (by_name venue caps) then some venue else later

  unfoldable pub any_lists : MarketRequest → List VenueCapability → List String → Bool
  unfolding normalise by_name
  any_lists request caps [] = false
  any_lists request caps (venue ∷ venues) =
      lists_instrument request.instrument (instruments_of (by_name venue caps))
      || any_lists request caps venues

  unfoldable pub all_instruments : List VenueCapability → List String → List String
  unfolding by_name
  all_instruments caps [] = []
  all_instruments caps (venue ∷ venues) =
      instruments_of (by_name venue caps) ++ all_instruments caps venues

  unfoldable pub route_or :
      MarketRequest → List VenueCapability → List String → Option String → Route
  unfolding normalise by_name sort any_lists all_instruments
  route_or request caps order (some venue) = routed venue
  route_or request caps order none =
      let asked = filter (λ venue. is_known (by_name venue caps)) order in
      rejected (if any_lists request caps asked then interval_not_served else instrument_not_served)
        asked (sort (unique (all_instruments caps asked)))

  unfoldable pub route : MarketRequest → List VenueCapability → List String → Route
  unfolding first_serving route_or
  route request caps [] = rejected no_venues_configured [] []
  route request caps (venue ∷ order) =
      route_or request caps (venue ∷ order) (first_serving request caps (venue ∷ order))
