-- ===== src/Poller/Cycles.antt =====
-- Cycles do not overlap, the schedule does not end, and `stop` ends it.
use buy_not_buy_com.Common.{
  ℕ, ◌+◌, ◌≤◌, ◌≡◌, refl, Bool, true, false, not, ◌&&◌, Option, List, [], ◌∷◌, arith,
}
use buy_not_buy_com.Poller.{
  Phase, resting, gating, running, Poller, Event, gate_answered, run_settled, finally, stop,
  run_job, start_cycle, start_poller, schedule_next, is_resting, fire, pass_gate, step, run,
}

-- The timer is set exactly while no cycle is in flight and the poller is not stopped.
abbrev pub is_scheduled : Poller → Bool
is_scheduled p = is_resting p.phase && not p.stopped

step-timer :
    (e : Event) (p : Poller) → p.timer ≡ is_scheduled p → (step e p).timer ≡ is_scheduled (step e p)
unfolding step fire pass_gate schedule_next start_cycle run_job
step-timer e p h = ground arith

run-timer :
    (es : List Event) (p : Poller)
    → p.timer ≡ is_scheduled p
    → (run es p).timer ≡ is_scheduled (run es p)
unfolding run
run-timer [] p h = h
run-timer (e ∷ es) p h = run-timer es (step e p) (step-timer e p h)

-- Whatever the gate and the job do, and in whatever order: the timer of a started poller is set exactly
-- while no cycle is in flight and the poller is not stopped. So no two cycles overlap, and no failure
-- ends the schedule.
pub timer_exact :
    (has_gate : Bool) (es : List Event)
    → let p = run es (start_poller has_gate) in p.timer ≡ is_scheduled p
unfolding start_poller start_cycle run_job
timer_exact true es = run-timer es (start_poller true) refl
timer_exact false es = run-timer es (start_poller false) refl

-- The number of jobs that settle in a sequence of events.
abbrev pub settles : Event → Poller → ℕ
settles run_settled p = elim p.phase [ running ↦ 1 | _ ↦ 0 ]
settles _ p = 0

pub settled_in : List Event → Poller → ℕ
settled_in [] p = 0
settled_in (e ∷ es) p = settles e p + settled_in es (step e p)

abbrev pub in_run : Phase → ℕ
in_run running = 1
in_run _ = 0

step-runs :
    (e : Event) (p : Poller)
    → (step e p).runs + in_run p.phase ≡ p.runs + in_run ((step e p).phase) + settles e p
unfolding step fire pass_gate schedule_next start_cycle run_job
step-runs e p = ground arith

run-runs :
    (es : List Event) (p : Poller)
    → (run es p).runs + in_run p.phase ≡ p.runs + in_run ((run es p).phase) + settled_in es p
unfolding run settled_in
run-runs [] p = omega arith
run-runs (e ∷ es) p = omega (arith, run-runs es (step e p), step-runs e p)

-- `completedRuns` counts the jobs that were begun: those that have settled, and the one that runs.
pub completed_runs_exact :
    (es : List Event)
    → let p = run es (start_poller true) in
      p.runs ≡ settled_in es (start_poller true) + in_run p.phase
unfolding start_poller start_cycle
completed_runs_exact es = omega (arith, run-runs es (start_poller true))

abbrev pub in_gate : Phase → ℕ
in_gate gating = 1
in_gate _ = 0

step-quiet :
    (e : Event) (p : Poller)
    → p.stopped ≡ true
    → p.timer ≡ false
    → ((step e p).stopped ≡ true)
      × ((step e p).timer ≡ false)
      × ((step e p).runs + in_gate ((step e p).phase) ≤ p.runs + in_gate p.phase)
unfolding step fire pass_gate schedule_next start_cycle run_job
step-quiet e p h k = ground arith

run-quiet :
    (es : List Event) (p : Poller)
    → p.stopped ≡ true
    → p.timer ≡ false
    → ((run es p).timer ≡ false)
      × ((run es p).runs + in_gate ((run es p).phase) ≤ p.runs + in_gate p.phase)
unfolding run
run-quiet [] p h k = ground arith
run-quiet (e ∷ es) p h k =
    let (stays, unset, bound) = step-quiet e p h k in
    ground (arith, bound, run-quiet es (step e p) stays unset)

-- After `stop`, in whatever phase it comes and whatever follows, no timer is set and no job begins but
-- the one whose gate had been asked already.
pub stop_quiet :
    (es : List Event) (p : Poller)
    → let p' = run es (step stop p) in (p'.timer ≡ false) × (p'.runs ≤ p.runs + in_gate p.phase)
unfolding step
stop_quiet es p = ground (arith, run-quiet es (step stop p) refl refl)

-- After `stop` the cycle in flight ends once its gate answers, if it waits for that, its job settles and
-- its `finally` runs; so the promise of `stop` resolves, and no other cycle begins.
pub stop_resolves :
    (answer : Option Bool) (p : Poller)
    → let p' = run (gate_answered answer ∷ run_settled ∷ finally ∷ []) (step stop p) in
      (p'.phase ≡ resting) × (p'.timer ≡ false)
unfolding run step pass_gate run_job schedule_next
stop_resolves answer p = ground arith
