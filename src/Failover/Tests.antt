-- ===== src/Failover/Tests.antt =====
-- Runs of the chain, and the theorems at concrete chains.
use buy_not_buy_com.Common.{
  ℕ, zero, suc, ◌≡◌, refl, true, false, some, none, List, [], ◌∷◌, ◌<◌, All, arith,
}
use buy_not_buy_com.Failover.{
  FailoverProvider, VenueFailure, Thrown, to_venue_failure, CallResult, gave, threw, chain_failed,
  answered_by, kind_timeout, kind_circuit_open, run_attributed, active_venue, switched, chain_error,
}
use buy_not_buy_com.Failover.Order.{is_gave, names, run_attributed-failed}
use buy_not_buy_com.Failover.Overlap.{
  OngoingRequest, begin_request, settle_call, ask_next, asked_of, is_failed,
}
use buy_not_buy_com.Failover.Handback.{run_requests, repeated, handed_back_unasked}

abbrev three_venues : FailoverProvider
three_venues = record {
  venues = "binance" ∷ "bitget" ∷ "okx" ∷ [];
  recovery_successes = 3;
  preferred = 0;
  consecutive_backup_successes = 0;
}

abbrev on_bitget : FailoverProvider
on_bitget = record three_venues { preferred = 1 }

abbrev timed_out : Thrown
timed_out = record { reason = "timeout"; kind = some kind_timeout; code = none; http_status = none }

abbrev refused : Thrown
refused = record timed_out { kind = some kind_circuit_open }

abbrev all_down : ℕ → CallResult ℕ
all_down i = threw timed_out

abbrev only_okx : ℕ → CallResult ℕ
only_okx zero = threw timed_out
only_okx (suc zero) = threw timed_out
only_okx (suc (suc i)) = gave 7

abbrev only_primary_down : ℕ → CallResult ℕ
only_primary_down zero = threw timed_out
only_primary_down (suc i) = gave 5

primary_down :
    run_attributed only_primary_down three_venues ≡ (on_bitget, answered_by "bitget" 5, 0 ∷ 1 ∷ [])
unfolding run_attributed
primary_down = refl

bitget_answers : active_venue on_bitget ≡ "bitget"
unfolding active_venue
bitget_answers = refl

still_switched : switched on_bitget ≡ true
unfolding switched
still_switched = refl

mixed_timeout :
    (chain_error
      (to_venue_failure "okx" timed_out ∷ to_venue_failure "binance" refused ∷ [])).status_code
    ≡ 504
unfolding chain_error
mixed_timeout = refl

-- Bitget is asked first, then the venues after it.
abbrev failures_from_bitget : List VenueFailure
failures_from_bitget =
    to_venue_failure "bitget" timed_out
    ∷ to_venue_failure "okx" timed_out
    ∷ to_venue_failure "binance" timed_out
    ∷ []

all_fail : (run_attributed all_down on_bitget).1 ≡ chain_failed (chain_error failures_from_bitget)
unfolding run_attributed
all_fail = refl

run_attributed-failed_example :
    (is_gave (all_down 2) ≡ false)
    × (names (chain_error failures_from_bitget).attempted ≡ "bitget" ∷ "okx" ∷ "binance" ∷ [])
run_attributed-failed_example =
    run_attributed-failed all_down on_bitget 2 (chain_error failures_from_bitget) (omega arith)
      all_fail (omega arith)

handed_back_unasked_example :
    let (f', asked) = run_requests (repeated 3 only_okx) on_bitget in
    (f'.preferred ≡ 0) × (f'.consecutive_backup_successes ≡ 0) × All (λ i. 0 < i) asked
handed_back_unasked_example =
    handed_back_unasked only_okx 2 on_bitget timed_out 7 refl (omega arith) (omega arith) refl refl

-- Two requests overlap: the second finds the primary down and moves the chain to Bitget while the first
-- still awaits the primary. The first goes on with OKX and then with the primary again.
abbrev overlapped : FailoverProvider × OngoingRequest ℕ
overlapped =
    let f₀ = three_venues in
    let first₀ : OngoingRequest ℕ = begin_request f₀ in
    let (f₁, second₁) = settle_call (threw timed_out) first₀ f₀ in
    let (f₂, second₂) = settle_call (gave 5) second₁ f₁ in
    let (f₃, first₁) = settle_call (threw timed_out) first₀ f₂ in
    let (f₄, first₂) = settle_call (threw timed_out) first₁ f₃ in
    settle_call (threw timed_out) first₂ f₄

-- The first request fails, and has asked the primary twice and Bitget, which answers, never.
backup_skipped : asked_of overlapped.1 ≡ 0 ∷ 2 ∷ 0 ∷ []
unfolding settle_call begin_request ask_next
backup_skipped = refl

overlapped_failed : is_failed overlapped.1 ≡ true
unfolding settle_call begin_request ask_next
overlapped_failed = refl
