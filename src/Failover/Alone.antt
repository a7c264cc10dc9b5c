-- ===== src/Failover/Alone.antt =====
-- A request that no other overlaps, in the steps of Overlap and as a whole.
use Prim.Native.String.{String}
use native.Mathlib.Nat.{mod-lt}
use buy_not_buy_com.Common.{
  ℕ, zero, suc, ◌+◌, ◌%◌, ◌<◌, ◌≡◌, refl, sym, ap, ◌∙◌, inl, inr, some, List, [], ◌∷◌, ◌++◌, length,
  get_elem?, arith,
}
use buy_not_buy_com.Failover.{
  FailoverProvider, VenueFailure, CallResult, gave, threw, ChainResult, answered_by,
  to_venue_failure, try_venues, run_attributed, record_venue_success, record_venue_failure,
}
use buy_not_buy_com.Failover.Rotation.{named_lem}
use buy_not_buy_com.Failover.Order.{
  call_cases, record_venue_failure-same, try_venues-gave, try_venues-threw,
}
use buy_not_buy_com.Failover.Overlap.{
  OngoingRequest, asking, ended, ask_next, begin_request, settle_call,
}

module _ {A : Type 0} (call : ℕ → CallResult A) where
  -- The calls of one request settle one after another, with nothing in between.
  unfoldable pub settle_alone :
      ℕ → OngoingRequest A → FailoverProvider → FailoverProvider × OngoingRequest A
  settle_alone zero request f = (f, request)
  settle_alone (suc n) (ended r asked) f = (f, ended r asked)
  settle_alone (suc n) (asking left step index name failures asked) f =
      let (f', request) = settle_call (call index) (asking left step index name failures asked) f in
      settle_alone n request f'

  settle_alone-ended :
      (n : ℕ) (r : ChainResult A) (asked : List ℕ) (f : FailoverProvider)
      → settle_alone n (ended r asked) f ≡ (f, ended r asked)
  unfolding settle_alone
  settle_alone-ended zero r asked f = refl
  settle_alone-ended (suc n) r asked f = refl

  ask_next-named :
      (left step : ℕ) (f : FailoverProvider) (failures : List VenueFailure) (asked : List ℕ)
      (name : String)
      → let i = (f.preferred + step) % length f.venues in
        get_elem? f.venues i ≡ some name
        → ask_next {A = A} (suc left) step f failures asked
          ≡ asking left step i name failures (asked ++ i ∷ [])
  unfolding ask_next
  ask_next-named left step f failures asked name named = ground arith

  abbrev finished : FailoverProvider × ChainResult A × List ℕ → FailoverProvider × OngoingRequest A
  finished (f, r, asked) = (f, ended r asked)

  -- The call of the venue that is asked settles, and then all later ones.
  settle_alone-asking :
      (left step i : ℕ) (f : FailoverProvider) (name : String) (failures : List VenueFailure)
      (asked : List ℕ) (r : CallResult A)
      → call i ≡ r
      → settle_alone (suc left) (asking left step i name failures asked) f ≡ (
          let (f', request) = settle_call r (asking left step i name failures asked) f in
          settle_alone left request f')
  unfolding settle_alone
  settle_alone-asking left step i f name failures asked r e =
      ap
        (λ c.
          let (f', request) = settle_call c (asking left step i name failures asked) f in
          settle_alone left request f')
        e

  settle_alone-ask_next :
      (left step : ℕ) (f : FailoverProvider) (failures : List VenueFailure) (asked : List ℕ)
      → 0 < length f.venues
      → settle_alone left (ask_next left step f failures asked) f
        ≡ finished (try_venues call left step f failures asked)
  unfolding settle_alone ask_next try_venues settle_call
  settle_alone-ask_next zero step f failures asked h = refl
  settle_alone-ask_next (suc left) step f failures asked h =
      let i = (f.preferred + step) % length f.venues in
      let (name, named) = named_lem f.venues i (mod-lt (f.preferred + step) h) in
      let asks =
        ap (λ q. settle_alone (suc left) q f)
          (ask_next-named left step f failures asked name named) in
      elim (call_cases (call i)) [
        | inl (x, gives) ↦
            asks
            ∙ settle_alone-asking left step i f name failures (asked ++ i ∷ []) (gave x) gives
            ∙ settle_alone-ended left (answered_by name x) (asked ++ i ∷ [])
                (record_venue_success i f)
            ∙ sym (ap finished (try_venues-gave call left step f failures asked name x named gives))
        | inr (e, throws) ↦
            let (p, v) = record_venue_failure-same i f in
            asks
            ∙ settle_alone-asking left step i f name failures (asked ++ i ∷ []) (threw e) throws
            ∙ settle_alone-ask_next left (step + 1) (record_venue_failure i f)
                (failures ++ to_venue_failure name e ∷ []) (asked ++ i ∷ []) (rw v h)
            ∙ sym
                (ap finished (try_venues-threw call left step f failures asked name e named throws))
      ]

  -- A request whose calls settle with no step of another request in between ends as `run_attributed`
  -- says, within as many calls as there are venues.
  pub settle_alone-begin_request :
      (f : FailoverProvider)
      → 0 < length f.venues
      → let (f', r, asked) = run_attributed call f in
        settle_alone (length f.venues) (begin_request f) f ≡ (f', ended r asked)
  unfolding begin_request run_attributed
  settle_alone-begin_request f h = settle_alone-ask_next (length f.venues) 0 f [] [] h
