-- ===== src/Lease/Sound.antt =====
-- What holds of each session of a process, whatever happens.
use buy_not_buy_com.Common.{
  ℕ, ◌≡◌, Bool, true, false, ◌&&◌, ◌||◌, not, Option, some, none, leb, ltb, ◌==◌, if◌then◌else◌,
  arith,
}
use buy_not_buy_com.Lease.{
  LockServer, Job, idle, connecting, trying, checking, unlocking, unlocked, tried, checked, Lease,
  ensure_held, release, connected, connect_failed, query_done, query_rejected, resume, client_error,
  connection_lost, is_parked, step, begin_ensure, begin_release, watch, reject_query, resume_call,
  drop_broken, lost_parked, give_back, finish_acquire, finish_check, answer_query,
}
use buy_not_buy_com.Lease.Locks.{IsLockServer}

-- The job waits on the session.
abbrev pub waits_on : Job → ℕ → Bool
waits_on (trying s) n = s == n
waits_on (tried s a) n = s == n
waits_on (checking s) n = s == n
waits_on (checked s a) n = s == n
waits_on (unlocking s) n = s == n
waits_on (unlocked s) n = s == n
waits_on _ n = false

-- Only an idle process, or one that checks the session that it has parked, has a parked session.
abbrev pub may_park : Option ℕ → Job → Bool
may_park none job = true
may_park (some m) idle = true
may_park (some m) (checking s) = m == s
may_park (some m) (checked s a) = m == s
may_park (some m) _ = false

abbrev pub implies : Bool → Bool → Bool
implies a b = not a || b

-- What the job says of its own session: how often it holds the lock, or that it is lost.
abbrev pub job_fits : Job → ℕ → Bool → Bool → Bool → Bool
job_fits (trying s) depth lost parked failed = depth == 0
job_fits (tried s locked) depth lost parked failed =
    (if locked then depth == 1 || lost else depth == 0)
job_fits (checking s) depth lost parked failed = parked || failed
job_fits (checked s verified) depth lost parked failed =
    (parked || failed) && (verified || depth == 0)
job_fits (unlocking s) depth lost parked failed = leb depth 1
job_fits (unlocked s) depth lost parked failed = depth == 0
job_fits _ depth lost parked failed = true

-- A session is as it should be: one that is not borrowed yet holds nothing; the parked one is neither
-- released nor broken, and holds the lock once unless the database has lost it; one that is not released
-- is parked or in use; one that went back to the pool unbroken holds nothing.
abbrev pub sound_at : Lease → ℕ → ℕ → Bool → Bool
sound_at l n depth lost =
    let s = l.sessions n in
    let borrowed = ltb n l.next in
    let parked = is_parked l.client n in
    may_park l.client l.job
    && (implies (not borrowed) (depth == 0 && not parked && not (waits_on l.job n))
        && (implies parked (not s.released && not s.failed && (depth == 1 || lost))
            && (implies (borrowed && not s.released) (parked || waits_on l.job n)
                && (implies (borrowed && s.released && not s.failed) (depth == 0)
                    && (implies (borrowed && s.failed) s.released
                        && (implies lost (depth == 0)
                            && implies (waits_on l.job n) (
                                (not s.released || s.failed)
                                && job_fits l.job depth lost parked s.failed)))))))

module _ {D : Type 0} (server : LockServer D) (laws : IsLockServer server) (p : ℕ) where
  abbrev pub IsSound : Lease → D → ℕ → Type 0
  IsSound l d n = sound_at l n (server.depth d (p, n)) (server.is_lost d (p, n)) ≡ true

  pub step_ensure :
      (l : Lease) (d : D) (n : ℕ)
      → IsSound l d n
      → let r = step server p ensure_held l d in IsSound r.0 r.1 n
  unfolding step begin_ensure
  step_ensure l d n h = ground arith

  pub step_release :
      (l : Lease) (d : D) (n : ℕ)
      → IsSound l d n
      → let r = step server p release l d in IsSound r.0 r.1 n
  unfolding step begin_release
  step_release l d n h = ground arith

  pub step_connected :
      (l : Lease) (d : D) (n : ℕ)
      → IsSound l d n
      → let r = step server p connected l d in IsSound r.0 r.1 n
  unfolding step watch
  step_connected l d n h = ground arith

  pub step_connect_failed :
      (l : Lease) (d : D) (n : ℕ)
      → IsSound l d n
      → let r = step server p connect_failed l d in IsSound r.0 r.1 n
  unfolding step
  step_connect_failed l d n h = ground arith

  pub step_rejected :
      (l : Lease) (d : D) (n : ℕ)
      → IsSound l d n
      → let r = step server p query_rejected l d in IsSound r.0 r.1 n
  unfolding step reject_query lost_parked drop_broken
  step_rejected l d n h = ground arith

  pub step_resume :
      (l : Lease) (d : D) (n : ℕ)
      → IsSound l d n
      → let r = step server p resume l d in IsSound r.0 r.1 n
  unfolding step resume_call finish_acquire finish_check lost_parked drop_broken give_back
  step_resume l d n h = ground arith

  pub step_error :
      (s : ℕ) (l : Lease) (d : D) (n : ℕ)
      → IsSound l d n
      → let r = step server p (client_error s) l d in IsSound r.0 r.1 n
  unfolding step drop_broken
  step_error s l d n h = ground arith

  pub step_lost :
      (s : ℕ) (l : Lease) (d : D) (n : ℕ)
      → IsSound l d n
      → let r = step server p (connection_lost s) l d in IsSound r.0 r.1 n
  unfolding step
  step_lost s l d n h =
      let d' = server.lose (p, s) d in
      ground (
        arith,
        h,
        laws.lose_own d (p, s),
        laws.lose_other d (p, s) (p, n),
        laws.lost_free d' (p, n),
      )

  pub step_answer :
      (job : Job) (l : Lease) (d : D) (n : ℕ)
      → l.job ≡ job
      → IsSound l d n
      → let r = step server p query_done l d in IsSound r.0 r.1 n
  unfolding step answer_query
  step_answer (trying s) l d n now h = ground (
    arith,
    now,
    h,
    laws.try_held d (p, s),
    laws.try_denied d (p, s),
    laws.try_other d (p, s) (p, n),
    laws.try_lost d (p, s) (p, n),
  )
  step_answer (checking s) l d n now h = ground arith
  step_answer (unlocking s) l d n now h = ground (
    arith,
    now,
    h,
    laws.unlock_own d (p, s),
    laws.unlock_other d (p, s) (p, n),
    laws.unlock_lost d (p, s) (p, n),
  )
  step_answer idle l d n now h = ground arith
  step_answer connecting l d n now h = ground arith
  step_answer (tried s a) l d n now h = ground arith
  step_answer (checked s a) l d n now h = ground arith
  step_answer (unlocked s) l d n now h = ground arith
