-- ===== src/Failover/Overlap.antt =====
-- src/backend/market/failover.provider.ts, runAttributed, when requests overlap: what a request does
-- between two awaits is one step on the state that all requests share. Each step reads the preference
-- anew, so that the indices of one request need not follow one another.
use Prim.Native.String.{String}
use buy_not_buy_com.Common.{
  ℕ, zero, suc, ◌+◌, ◌%◌, Bool, true, false, some, none, List, [], ◌∷◌, ◌++◌, length, get_elem?,
}
use buy_not_buy_com.Failover.{
  FailoverProvider, VenueFailure, CallResult, gave, threw, ChainResult, answered_by, chain_failed,
  chain_error, to_venue_failure, record_venue_success, record_venue_failure,
}

-- A request that awaits the call of a venue, with the rounds left after it, its step, the venue's number
-- and name, the failures so far and the venues asked; or one that has ended.
pub data OngoingRequest (A : Type 0) : Type 0 where
  asking : ℕ → ℕ → ℕ → String → List VenueFailure → List ℕ → OngoingRequest A
  ended : ChainResult A → List ℕ → OngoingRequest A

module _ {A : Type 0} where
  -- The loop up to the next `await`, or to the end.
  unfoldable pub ask_next : ℕ → ℕ → FailoverProvider → List VenueFailure → List ℕ → OngoingRequest A
  ask_next zero step f failures asked = ended (chain_failed (chain_error failures)) asked
  ask_next (suc left) step f failures asked =
      let index = (f.preferred + step) % length f.venues in
      elim (get_elem? f.venues index) [
        | none ↦ ask_next left (step + 1) f failures asked
        | some name ↦ asking left step index name failures (asked ++ index ∷ [])
      ]

  unfoldable pub begin_request : FailoverProvider → OngoingRequest A
  unfolding ask_next
  begin_request f = ask_next (length f.venues) 0 f [] []

  -- The call that the request awaits settles, in the state of that moment.
  unfoldable pub settle_call :
      CallResult A → OngoingRequest A → FailoverProvider → FailoverProvider × OngoingRequest A
  unfolding ask_next record_venue_success record_venue_failure
  settle_call r (ended result asked) f = (f, ended result asked)
  settle_call (gave value) (asking left step index name failures asked) f =
      (record_venue_success index f, ended (answered_by name value) asked)
  settle_call (threw error) (asking left step index name failures asked) f =
      let f' = record_venue_failure index f in
      (f', ask_next left (step + 1) f' (failures ++ to_venue_failure name error ∷ []) asked)

  -- The venues that the request has asked.
  abbrev pub asked_of : OngoingRequest A → List ℕ
  asked_of (asking left step index name failures asked) = asked
  asked_of (ended result asked) = asked

  abbrev pub is_failed : OngoingRequest A → Bool
  is_failed (ended (chain_failed e) asked) = true
  is_failed _ = false
