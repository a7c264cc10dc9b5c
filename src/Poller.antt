-- ===== src/Poller.antt =====
-- src/backend/services/poller.ts, startPoller. An Event is what happens between two awaits: the timer
-- fires, the gate answers, the job settles, the promise of the cycle runs its `finally`, or `stop` is
-- called. Of the timer only its being set matters. Log lines are left out.
use buy_not_buy_com.Common.{
  ℕ, ◌+◌, ◌≡◌, Bool, true, false, not, ◌&&◌, Option, some, none, List, [], ◌∷◌, if◌then◌else◌,
}
pub mod Cycles
mod Tests

-- Where the cycle in flight stands; `settled` waits for its `finally`, and `resting` is `inFlight === null`.
pub data Phase : Type 0 where
  resting gating running settled : Phase

pub record Poller : Type 0 where
  pub has_gate : Bool
  pub timer : Bool
  pub phase : Phase
  pub stopped : Bool
  pub runs : ℕ

-- `none` is a gate that rejects; the outcome of a job does not matter.
pub data Event : Type 0 where
  tick : Event
  gate_answered : Option Bool → Event
  run_settled : Event
  finally : Event
  stop : Event

pub run_job : Poller → Poller
run_job p = record p { phase = running; runs = p.runs + 1 }

-- `startCycle`, and `cycle` up to its first await.
pub start_cycle : Poller → Poller
unfolding run_job
start_cycle p =
    if p.stopped
    then record p { phase = settled }
    else if p.has_gate
    then record p { phase = gating }
    else run_job p

pub start_poller : Bool → Poller
unfolding start_cycle
start_poller has_gate =
    start_cycle
      (record { has_gate = has_gate; timer = false; phase = resting; stopped = false; runs = 0 })

pub schedule_next : Poller → Poller
schedule_next p = if p.stopped then p else record p { timer = true }

abbrev pub is_resting : Phase → Bool
is_resting resting = true
is_resting _ = false

pub fire : Poller → Poller
unfolding schedule_next start_cycle
fire p =
    let p' = record p { timer = false } in
    if is_resting p.phase then start_cycle p' else schedule_next p'

abbrev is_open : Option Bool → Bool
is_open (some true) = true
is_open _ = false

-- `cycle` behind the gate.
pub pass_gate : Option Bool → Poller → Poller
unfolding run_job
pass_gate answer p = if is_open answer then run_job p else record p { phase = settled }

-- An event that does not fit the phase changes nothing.
pub step : Event → Poller → Poller
unfolding fire pass_gate schedule_next
step tick p = if p.timer then fire p else p
step (gate_answered answer) p = elim p.phase [ gating ↦ pass_gate answer p | _ ↦ p ]
step run_settled p = elim p.phase [ running ↦ record p { phase = settled } | _ ↦ p ]
step finally p = elim p.phase [ settled ↦ schedule_next (record p { phase = resting }) | _ ↦ p ]
step stop p = record p { stopped = true; timer = false }

pub run : List Event → Poller → Poller
unfolding step
run [] p = p
run (e ∷ es) p = run es (step e p)
