-- ===== src/Lease.antt =====
-- src/backend/db/lease.ts. A session is one borrowed client of the pool, numbered by the order in which a
-- process borrowed it; what its closure keeps (`released`, `failure`) stands in `sessions`, since the
-- parked session and the one that a call waits on may be the same object. The calls `ensureHeld` and
-- `release` of one process run one after the other, as `serialize` has it, and an Event is what happens
-- between two awaits: a call begins, the pool or the database answers, or a connection breaks. The
-- advisory locks of the database are the LockServer. Log lines are left out.
use Prim.Native.Nat.{bit_xor}
use buy_not_buy_com.Common.{
  ℕ, zero, suc, ◌+◌, ◌-◌, ◌*◌, ◌%◌, ◌^◌, ◌≤◌, ◌<◌, ◌≡◌, ◌≢◌, Bool, true, false, ◌&&◌, ◌||◌, not,
  Option, some, none, List, [], ◌∷◌, ltb, ◌==◌, if◌then◌else◌,
}
pub mod Locks
pub mod Sound
pub mod Leader
mod Tests

-- The low 32 bits of the hash; `charCodeAt` gives the codes.
abbrev pub hash_codes : ℕ → List ℕ → ℕ
hash_codes hash [] = hash
hash_codes hash (code ∷ codes) = hash_codes (bit_xor hash code * 16777619 % 2 ^ 32) codes

pub lock_key_of : List ℕ → ℕ
lock_key_of codes = hash_codes 2166136261 codes % 2 ^ 31

-- The session's process and its number.
abbrev pub SessionId : Type 0
SessionId = ℕ × ℕ

-- The statements on one advisory lock: `depth` says how often a session has acquired it, and a session
-- whose connection the database has lost holds nothing.
pub record LockServer (D : Type 0) : Type 0 where
  pub depth : D → SessionId → ℕ
  pub is_lost : D → SessionId → Bool
  pub try_lock : SessionId → D → D × Bool
  pub unlock : SessionId → D → D
  pub lose : SessionId → D → D

pub record SessionState : Type 0 where
  pub released : Bool
  pub failed : Bool

-- What a call of the process waits for.
pub data Job : Type 0 where
  idle connecting : Job
  trying checking unlocking unlocked : ℕ → Job
  tried checked : ℕ → Bool → Job

pub record Lease : Type 0 where
  pub client : Option ℕ
  pub sessions : ℕ → SessionState
  pub next : ℕ
  pub job : Job

pub data Event : Type 0 where
  ensure_held release connected connect_failed query_done query_rejected resume : Event
  client_error connection_lost : ℕ → Event

pub create_lease : Lease
create_lease = record {
  client = none;
  sessions = λ n. record { released = false; failed = false };
  next = 0;
  job = idle;
}

abbrev pub is_parked : Option ℕ → ℕ → Bool
is_parked none n = false
is_parked (some m) n = m == n

pub is_held : Lease → Bool
is_held l = elim l.client [ none ↦ false | some s ↦ true ]

abbrev pub set_session : ℕ → SessionState → Lease → Lease
set_session s state l = record l { sessions = λ n. if s == n then state else l.sessions n }

pub give_back : ℕ → Lease → Lease
give_back s l = set_session s (record { released = true; failed = (l.sessions s).failed }) l

pub drop_broken : ℕ → Lease → Lease
drop_broken s l = record (set_session s (record { released = true; failed = true }) l) {
  client = if is_parked l.client s then none else l.client;
}

-- The call begins: `ensureOnce` up to its first await, and `releaseOnce`.
pub begin_ensure : Lease → Lease
begin_ensure l = elim l.client [
  | none ↦ record l { job = connecting }
  | some s ↦ record l { job = checking s }
]

pub begin_release : Lease → Lease
begin_release l = elim l.client [
  | none ↦ l
  | some s ↦ record l { client = none; job = unlocking s }
]

-- `watch` on the client that the pool gave.
pub watch : Lease → Lease
watch l = record (set_session l.next (record { released = false; failed = false }) l) {
  next = l.next + 1;
  job = trying l.next;
}

-- `acquire` behind the answer of `tryLockOn`.
pub finish_acquire : ℕ → Bool → Lease → Lease
unfolding drop_broken give_back
finish_acquire s locked l =
    if (l.sessions s).failed
    then record (drop_broken s l) { job = idle }
    else if locked
    then record l { client = some s; job = idle }
    else record (give_back s l) { job = idle }

-- `ensureOnce` behind the answer of CHECK_LOCK, and its catch.
pub lost_parked : ℕ → Lease → Lease
unfolding drop_broken
lost_parked s l = record (drop_broken s (record l { client = none })) { job = connecting }

pub finish_check : ℕ → Bool → Lease → Lease
unfolding lost_parked give_back
finish_check s verified l =
    if (l.sessions s).failed
    then lost_parked s l
    else if verified
    then record l { job = idle }
    else record (give_back s (record l { client = none })) { job = connecting }

module _ {D : Type 0} (server : LockServer D) (process : ℕ) where
  -- The answer of the database to the statement that the call waits for.
  pub answer_query : Lease → D → Lease × D
  answer_query l d = elim l.job [
    | trying s ↦ let r = server.try_lock (process, s) d in (record l { job = tried s r.1 }, r.0)
    | checking s ↦ (record l { job = checked s (ltb 0 (server.depth d (process, s))) }, d)
    | unlocking s ↦ (record l { job = unlocked s }, server.unlock (process, s) d)
    | _ ↦ (l, d)
  ]

  pub reject_query : Lease → Lease
  unfolding drop_broken lost_parked
  reject_query l = elim l.job [
    | trying s ↦ record (drop_broken s l) { job = idle }
    | checking s ↦ lost_parked s l
    | unlocking s ↦ record (drop_broken s l) { job = idle }
    | _ ↦ l
  ]

  pub resume_call : Lease → Lease
  unfolding finish_acquire finish_check give_back
  resume_call l = elim l.job [
    | tried s locked ↦ finish_acquire s locked l
    | checked s verified ↦ finish_check s verified l
    | unlocked s ↦ record (give_back s l) { job = idle }
    | _ ↦ l
  ]

  -- An event that does not fit the job changes nothing: a call begins when none runs, and a statement on
  -- a connection that the database has lost is not answered.
  pub step : Event → Lease → D → Lease × D
  unfolding begin_ensure begin_release watch answer_query reject_query resume_call drop_broken
  step ensure_held l d = elim l.job [ idle ↦ (begin_ensure l, d) | _ ↦ (l, d) ]
  step release l d = elim l.job [ idle ↦ (begin_release l, d) | _ ↦ (l, d) ]
  step connected l d = elim l.job [ connecting ↦ (watch l, d) | _ ↦ (l, d) ]
  step connect_failed l d = elim l.job [ connecting ↦ (record l { job = idle }, d) | _ ↦ (l, d) ]
  step query_done l d = elim l.job [
    | trying s ↦ if server.is_lost d (process, s) then (l, d) else answer_query l d
    | checking s ↦ if server.is_lost d (process, s) then (l, d) else answer_query l d
    | unlocking s ↦ if server.is_lost d (process, s) then (l, d) else answer_query l d
    | _ ↦ (l, d)
  ]
  step query_rejected l d = (reject_query l, d)
  step resume l d = (resume_call l, d)
  step (client_error s) l d =
      if ltb s l.next && not (l.sessions s).released then (drop_broken s l, d) else (l, d)
  step (connection_lost s) l d = (l, server.lose (process, s) d)

-- All processes, which share the database.
pub record Cluster (D : Type 0) : Type 0 where
  pub leases : ℕ → Lease
  pub database : D

module _ {D : Type 0} (server : LockServer D) where
  pub step_cluster : ℕ × Event → Cluster D → Cluster D
  unfolding step
  step_cluster (p, event) c =
      let r = step server p event (c.leases p) c.database in
      record { leases = λ q. if p == q then r.0 else c.leases q; database = r.1 }

  pub run_cluster : List (ℕ × Event) → Cluster D → Cluster D
  unfolding step_cluster
  run_cluster [] c = c
  run_cluster (e ∷ es) c = run_cluster es (step_cluster e c)
