-- ===== src/Poller/Tests.antt =====
-- Runs of the poller, and the theorems at concrete runs.
use buy_not_buy_com.Common.{◌≡◌, refl, true, false, some, none, List, [], ◌∷◌}
use buy_not_buy_com.Poller.{
  resting, Event, tick, gate_answered, run_settled, finally, start_poller, run,
}

-- The gate opens, the job fails or not, the timer fires, and the gate is asked again.
abbrev two_cycles : List Event
two_cycles =
    gate_answered (some true) ∷ run_settled ∷ finally ∷ tick ∷ gate_answered (some true) ∷ []

-- The second job runs, and is counted already.
counted_early : (run two_cycles (start_poller true)).runs ≡ 2
unfolding run start_poller
counted_early = refl

closed_gate :
    run (gate_answered none ∷ finally ∷ []) (start_poller true)
    ≡ record { has_gate = true; timer = true; phase = resting; stopped = false; runs = 0 }
unfolding run start_poller
closed_gate = refl
