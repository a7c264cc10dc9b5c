-- ===== src/Capability/Choice.antt =====
-- Which venue is chosen, and why none is.
use Prim.Native.String.{String}
use mathlib.Core.Path.{subst}
use buy_not_buy_com.Common.{
  ◌≡◌, refl, sym, ap, inl, inr, Bool, true, false, ◌||◌, some, none, List, [], ◌∷◌, ◌++◌,
  Bool-cases, Option-cases, arith, filter,
}
use buy_not_buy_com.MarketService.{MarketRequest}
use buy_not_buy_com.Capability.{
  Spelling, VenueCapability, Route, routed, rejected, no_venues_configured, instrument_not_served,
  interval_not_served, by_name, is_serving, first_serving, route_or, route, is_known, any_lists,
}

module _ (sp : Spelling) (request : MarketRequest) (caps : List VenueCapability) where
  abbrev pub any_serves : List String → Bool
  any_serves [] = false
  any_serves (venue ∷ venues) = is_serving sp request (by_name venue caps) || any_serves venues

  -- What a route says: the first venue of the order that serves the request, or that none does; then
  -- the reason is the interval exactly if some venue of the order lists the instrument.
  abbrev pub IsRight : List String → Route → Type 0
  IsRight order (routed venue) =
      (before : List String) × (after : List String) × (order ≡ before ++ venue ∷ after)
      × (any_serves before ≡ false)
      × (is_serving sp request (by_name venue caps) ≡ true)
  IsRight order (rejected no_venues_configured asked served) = order ≡ []
  IsRight order (rejected interval_not_served asked served) =
      (any_serves order ≡ false) × (any_lists sp request caps order ≡ true)
  IsRight order (rejected instrument_not_served asked served) =
      (any_serves order ≡ false) × (any_lists sp request caps order ≡ false)

  first_serving-some :
      (order : List String) (venue : String)
      → first_serving sp request caps order ≡ some venue
      → IsRight order (routed venue)
  unfolding first_serving
  first_serving-some [] venue found = absurd (ground (arith, found))
  first_serving-some (v ∷ order) venue found =
      elim (Bool-cases (is_serving sp request (by_name v caps))) [
        | inl here ↦
            let same : v ≡ venue = ground (arith, found, here) in
            (
              [],
              order,
              ap (λ x. x ∷ order) same,
              refl,
              subst (λ x. is_serving sp request (by_name x caps) ≡ true) same here,
            )
        | inr not_here ↦
            let (before, after, split, none_before, serves_it) =
              first_serving-some order venue (ground (arith, found, not_here)) in
            (
              v ∷ before,
              after,
              ap (λ x. v ∷ x) split,
              ground (arith, none_before, not_here),
              serves_it,
            )
      ]

  first_serving-none :
      (order : List String) → first_serving sp request caps order ≡ none → any_serves order ≡ false
  unfolding first_serving
  first_serving-none [] found = refl
  first_serving-none (v ∷ order) found = ground (arith, found, first_serving-none order)

  -- A venue of the order that is not known lists nothing.
  any_lists-known :
      (order : List String)
      → any_lists sp request caps (filter (λ venue. is_known (by_name venue caps)) order)
        ≡ any_lists sp request caps order
  unfolding any_lists
  any_lists-known [] = refl
  any_lists-known (v ∷ order) = elim (Option-cases (by_name v caps)) [
    | inl unknown ↦ ground (arith, unknown, any_lists-known order)
    | inr (c, known) ↦ ground (arith, known, any_lists-known order)
  ]

  missed-IsRight :
      (order : List String)
      → any_serves order ≡ false
      → IsRight order (route_or sp request caps order none)
  unfolding route_or
  missed-IsRight order missed = elim (Bool-cases (any_lists sp request caps order)) [
    | inl lists ↦ rw (any_lists-known order, lists) (missed, lists)
    | inr silent ↦ rw (any_lists-known order, silent) (missed, silent)
  ]

  -- A route names the first venue of the order that serves the request. It is refused only if there is
  -- no order, or if none of its venues serves the request; and then the reason is the interval exactly
  -- if some venue of the order lists the instrument, by a comparison that ignores case and spaces as the
  -- Spelling does.
  pub route-IsRight : (order : List String) → IsRight order (route sp request caps order)
  unfolding route route_or first_serving
  route-IsRight [] = refl
  route-IsRight (v ∷ order) = elim (Option-cases (first_serving sp request caps (v ∷ order))) [
    | inl missed ↦
        subst (λ o. IsRight (v ∷ order) (route_or sp request caps (v ∷ order) o)) (sym missed)
          (missed-IsRight (v ∷ order) (first_serving-none (v ∷ order) missed))
    | inr (venue, found) ↦
        subst (λ o. IsRight (v ∷ order) (route_or sp request caps (v ∷ order) o)) (sym found)
          (first_serving-some (v ∷ order) venue found)
  ]
