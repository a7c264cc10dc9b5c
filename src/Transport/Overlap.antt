-- ===== src/Transport/Overlap.antt =====
-- Requests of one market that overlap: each round of a request is one step, and between two of them other
-- requests begin and settle. `resetProviderTransport` of the market is a step of its own.
use Prim.Native.String.{String}
use buy_not_buy_com.Common.{
  ℕ, zero, suc, ◌+◌, ◌≤◌, ◌≡◌, refl, Bool, true, false, not, ◌&&◌, ◌||◌, some, List, [], ◌∷◌, ◌++◌,
  arith,
}
use buy_not_buy_com.Breaker.{Options, reset, new}
use buy_not_buy_com.ProviderHealth.{Normaliser, Records, reset_provider_health}
use buy_not_buy_com.Transport.{TransportConfig, Host, Attempt, Progress, Venue, Settled}
use buy_not_buy_com.Transport.Request.{Admission, settle_attempt, admit}

-- A request between two of its attempts.
pub record InFlight : Type 0 where
  pub attempt : ℕ
  pub probe_held : Bool

pub record World : Type 0 where
  pub venue : Venue
  pub in_flight : List InFlight

-- `settles` names a request by its place among those in flight.
pub data Event : Type 0 where
  begins : Admission → Event
  settles : ℕ → Attempt → Event
  cleared : Event

abbrev pub still : ℕ → Settled → List InFlight
still attempt s = elim s.progress [
  | Progress.again ↦ record { attempt = attempt; probe_held = s.probe_held } ∷ []
  | Progress.ended result ↦ []
]

-- Whether some request in flight holds the reservation of the breaker.
abbrev pub any_holds : List InFlight → Bool
any_holds [] = false
any_holds (r ∷ rs) = r.probe_held || any_holds rs

abbrev pub reserved : Venue → Bool
reserved v = v.breaker.probe_in_flight

-- A market whose first request is still to come.
abbrev pub idle_market : Options → Records → World
idle_market o records = record {
  venue = record { breaker = new o; records = records };
  in_flight = [];
}

module _ (cfg : TransportConfig) (h : Host) (n : Normaliser) (provider market : String) where
  pub settle_at : ℕ → Attempt → Venue → List InFlight → World
  unfolding settle_attempt
  settle_at i a v [] = record { venue = v; in_flight = [] }
  settle_at zero a v (r ∷ rs) =
      let s = settle_attempt cfg h n provider market r.probe_held r.attempt a v in
      record { venue = s.venue; in_flight = still (r.attempt + 1) s ++ rs }
  settle_at (suc i) a v (r ∷ rs) =
      let w = settle_at i a v rs in record { venue = w.venue; in_flight = r ∷ w.in_flight }

  -- `resetProviderTransport(provider, market)`.
  pub reset_provider_transport : Venue → Venue
  unfolding reset reset_provider_health
  reset_provider_transport v = record {
    breaker = reset v.breaker;
    records = reset_provider_health n (some provider) (some market) v.records;
  }

  pub step_world : World → Event → World
  unfolding admit settle_at reset_provider_transport
  step_world w (begins c) =
      let s = admit cfg h n provider market c w.venue in
      record { venue = s.venue; in_flight = w.in_flight ++ still 0 s }
  step_world w (settles i a) = settle_at i a w.venue w.in_flight
  step_world w cleared = record w { venue = reset_provider_transport w.venue }

  unfoldable pub run_world : World → List Event → World
  unfolding step_world
  run_world w [] = w
  run_world w (e ∷ es) = run_world (step_world w e) es

  -- A reservation always has a holder in flight.
  abbrev pub is_held : World → Bool
  is_held w = not (reserved w.venue) || any_holds w.in_flight

  settle-reservation :
      (held : Bool) (attempt : ℕ) (a : Attempt) (v : Venue)
      → let s = settle_attempt cfg h n provider market held attempt a v in
        (not (reserved s.venue) || (reserved v && (not held || any_holds (still (attempt + 1) s))))
        ≡ true
  unfolding settle_attempt
  settle-reservation held attempt a v = ground arith

  any_holds-append : (rs ss : List InFlight) → any_holds (rs ++ ss) ≡ (any_holds rs || any_holds ss)
  any_holds-append [] ss = refl
  any_holds-append (r ∷ rs) ss = ground (arith, any_holds-append rs ss)

  admit-reservation :
      (c : Admission) (v : Venue)
      → let s = admit cfg h n provider market c v in
        (not (reserved s.venue) || (reserved v || any_holds (still 0 s))) ≡ true
  unfolding admit
  admit-reservation c v = ground arith

  settle_at-held :
      (i : ℕ) (a : Attempt) (v : Venue) (rs : List InFlight) (others : Bool)
      → (not (reserved v) || (others || any_holds rs)) ≡ true
      → let w = settle_at i a v rs in
        (not (reserved w.venue) || (others || any_holds w.in_flight)) ≡ true
  unfolding settle_at
  settle_at-held i a v [] others inv = inv
  settle_at-held zero a v (r ∷ rs) others inv =
      let s = settle_attempt cfg h n provider market r.probe_held r.attempt a v in
      ground (
        arith,
        settle-reservation r.probe_held r.attempt a v,
        any_holds-append (still (r.attempt + 1) s) rs,
      )
  settle_at-held (suc i) a v (r ∷ rs) others inv =
      ground (arith, settle_at-held i a v rs (others || r.probe_held))

  step-held : (w : World) (e : Event) → is_held w ≡ true → is_held (step_world w e) ≡ true
  unfolding step_world
  step-held w (begins c) inv = ground (
    arith,
    admit-reservation c w.venue,
    any_holds-append w.in_flight (still 0 (admit cfg h n provider market c w.venue)),
  )
  step-held w (settles i a) inv = settle_at-held i a w.venue w.in_flight false inv
  step-held w cleared inv = ground arith

  run_world-held :
      (w : World) (es : List Event) → is_held w ≡ true → is_held (run_world w es) ≡ true
  unfolding run_world
  run_world-held w [] inv = inv
  run_world-held w (e ∷ es) inv = run_world-held (step_world w e) es (step-held w e inv)

  admit-idle :
      (c : Admission) (v : Venue)
      → reserved v ≡ false
      → v.breaker.open_until ≤ c.acquired_again
      → (admit cfg h n provider market c v).progress ≡ Progress.again
  unfolding admit
  admit-idle c v free over = ground arith

  -- However the requests of a market overlap, and whether or not it is reset between, a reservation of
  -- its breaker is held by some request in flight.
  pub reservation_has_holder :
      (o : Options) (records : Records) (es : List Event)
      → reserved (run_world (idle_market o records) es).venue ≡ true
      → any_holds (run_world (idle_market o records) es).in_flight ≡ true
  unfolding new
  reservation_has_holder o records es taken =
      ground (arith, taken, run_world-held (idle_market o records) es refl)

  -- A venue never falls silent: however the requests of its market overlapped, once none of them is in
  -- flight, the next request after the window of the breaker is let through to the venue.
  pub idle_venue_asked :
      (o : Options) (records : Records) (es : List Event) (c : Admission)
      → (run_world (idle_market o records) es).in_flight ≡ []
      → (run_world (idle_market o records) es).venue.breaker.open_until ≤ c.acquired_again
      → (admit cfg h n provider market c (run_world (idle_market o records) es).venue).progress
        ≡ Progress.again
  unfolding new
  idle_venue_asked o records es c idle over =
      let held = run_world-held (idle_market o records) es refl in
      admit-idle c (run_world (idle_market o records) es).venue (ground (arith, idle, held)) over
