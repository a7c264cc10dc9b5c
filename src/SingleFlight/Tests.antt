-- ===== src/SingleFlight/Tests.antt =====
-- Two callers of one market, whose shared work fails, beside another market.
use Prim.Native.String.{String}
use buy_not_buy_com.Common.{ℕ, ◌≡◌, refl, true, false, some, List, [], ◌∷◌}
use buy_not_buy_com.SingleFlight.{
  Settled, fulfilled, rejected, answered, Event, arrive, settle, resume, create_single_flight,
  step_flight, run_flight,
}
use buy_not_buy_com.SingleFlight.Calls.{failures_not_shared, followers_return, follower_answer}

abbrev joined : List (Event ℕ)
joined = arrive 1 ∷ arrive 2 ∷ []

abbrev failed : List (Event ℕ)
failed = arrive 1 ∷ arrive 2 ∷ settle 1 rejected ∷ resume 1 ∷ resume 2 ∷ settle 2 (fulfilled 7) ∷ []

abbrev succeeded : List (Event ℕ)
succeeded = arrive 1 ∷ arrive 2 ∷ settle 1 (fulfilled 5) ∷ resume 2 ∷ []

retry_counted : (run_flight create_single_flight failed).retried ≡ 1
unfolding run_flight create_single_flight step_flight
retry_counted = refl

second_caller_kept :
    (run_flight create_single_flight succeeded).progress 2 ≡ answered (fulfilled 5) false
unfolding run_flight create_single_flight step_flight
second_caller_kept = refl

failures_not_shared_example :
    (true ≡ true) × ((run_flight {A = ℕ} create_single_flight failed).outcome 1 ≡ some rejected)
unfolding run_flight create_single_flight step_flight
failures_not_shared_example = failures_not_shared failed 1 true refl

abbrev rest : List (Event ℕ)
rest = settle 1 rejected ∷ resume 2 ∷ settle 2 (fulfilled 7) ∷ resume 2 ∷ []

followers_return_example :
    let t = run_flight (run_flight create_single_flight joined) rest in
    (x : Settled ℕ) × (t.outcome 1 ≡ some x) × (t.progress 2 ≡ follower_answer x (fulfilled 7))
unfolding run_flight create_single_flight step_flight
followers_return_example = followers_return joined 2 1 rejected (fulfilled 7) refl

abbrev mixed : List (String × Event ℕ)
mixed = ("btc", arrive 1) ∷ ("eur", arrive 2) ∷ ("btc", settle 1 (fulfilled 5)) ∷ []
