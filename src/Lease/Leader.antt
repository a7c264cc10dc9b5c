-- ===== src/Lease/Leader.antt =====
-- At most one process leads, and no session is left behind.
use mathlib.Core.Path.{subst}
use buy_not_buy_com.Common.{
  ℕ, ◌<◌, ◌≡◌, ◌⊎◌, inl, inr, refl, ap, true, false, ◌||◌, some, none, List, [], ◌∷◌, ◌==◌, ==_iff,
  Bool-cases, arith,
}
use buy_not_buy_com.Lease.{
  LockServer, Job, idle, connecting, trying, checking, unlocking, unlocked, tried, checked, Lease,
  Event, ensure_held, release, connected, connect_failed, query_done, query_rejected, resume,
  client_error, connection_lost, is_parked, step, create_lease, begin_ensure, watch, resume_call,
  finish_acquire, Cluster, step_cluster, run_cluster, answer_query,
}
use buy_not_buy_com.Lease.Locks.{IsLockServer}
use buy_not_buy_com.Lease.Sound.{
  IsSound, waits_on, step_ensure, step_release, step_connected, step_connect_failed, step_rejected,
  step_resume, step_error, step_lost, step_answer,
}

module _ {D : Type 0} (server : LockServer D) (laws : IsLockServer server) where
  step-IsSound :
      (p : ℕ) (event : Event) (l : Lease) (d : D) (n : ℕ)
      → IsSound server laws p l d n
      → let r = step server p event l d in IsSound server laws p r.0 r.1 n
  step-IsSound p ensure_held l d n h = step_ensure server laws p l d n h
  step-IsSound p release l d n h = step_release server laws p l d n h
  step-IsSound p connected l d n h = step_connected server laws p l d n h
  step-IsSound p connect_failed l d n h = step_connect_failed server laws p l d n h
  step-IsSound p query_done l d n h = step_answer server laws p l.job l d n refl h
  step-IsSound p query_rejected l d n h = step_rejected server laws p l d n h
  step-IsSound p resume l d n h = step_resume server laws p l d n h
  step-IsSound p (client_error s) l d n h = step_error server laws p s l d n h
  step-IsSound p (connection_lost s) l d n h = step_lost server laws p s l d n h

  -- What one process does leaves the sessions of another alone.
  abbrev pub IsUntouched : D → D → ℕ → ℕ → Type 0
  IsUntouched d d' q n =
      (server.depth d' (q, n) ≡ server.depth d (q, n))
      × (server.is_lost d' (q, n) ≡ server.is_lost d (q, n))

  answer_apart :
      (job : Job) (p : ℕ) (l : Lease) (d : D) (q n : ℕ)
      → l.job ≡ job
      → (p == q) ≡ false
      → IsUntouched d ((step server p query_done l d).1) q n
  unfolding step answer_query
  answer_apart (trying s) p l d q n now h =
      ground (arith, now, h, laws.try_other d (p, s) (q, n), laws.try_lost d (p, s) (q, n))
  answer_apart (checking s) p l d q n now h = ground arith
  answer_apart (unlocking s) p l d q n now h =
      ground (arith, now, h, laws.unlock_other d (p, s) (q, n), laws.unlock_lost d (p, s) (q, n))
  answer_apart idle p l d q n now h = ground arith
  answer_apart connecting p l d q n now h = ground arith
  answer_apart (tried s a) p l d q n now h = ground arith
  answer_apart (checked s a) p l d q n now h = ground arith
  answer_apart (unlocked s) p l d q n now h = ground arith

  step_apart :
      (p : ℕ) (event : Event) (l : Lease) (d : D) (q n : ℕ)
      → (p == q) ≡ false
      → IsUntouched d ((step server p event l d).1) q n
  unfolding step
  step_apart p ensure_held l d q n h = ground arith
  step_apart p release l d q n h = ground arith
  step_apart p connected l d q n h = ground arith
  step_apart p connect_failed l d q n h = ground arith
  step_apart p query_done l d q n h = answer_apart l.job p l d q n refl h
  step_apart p query_rejected l d q n h = (refl, refl)
  step_apart p resume l d q n h = (refl, refl)
  step_apart p (client_error s) l d q n h = ground arith
  step_apart p (connection_lost s) l d q n h = ground (arith, h, laws.lose_other d (p, s) (q, n))

  abbrev pub AreSound : Cluster D → Type 0
  AreSound c = (p n : ℕ) → IsSound server laws p (c.leases p) c.database n

  step_cluster-AreSound :
      (e : ℕ × Event) (c : Cluster D) → AreSound c → AreSound (step_cluster server e c)
  unfolding step_cluster
  step_cluster-AreSound (p, event) c h q n = elim (Bool-cases (p == q)) [
    | inl own ↦ rw own (
        subst
          (λ r.
            let s = step server p event (c.leases p) c.database in IsSound server laws r s.0 s.1 n)
          ((==_iff p q).0 own) (step-IsSound p event (c.leases p) c.database n (h p n)))
    | inr other ↦
        let (same_depth, same_loss) = step_apart p event (c.leases p) c.database q n other in
        rw (other, same_depth, same_loss) (h q n)
  ]

  pub run_cluster-AreSound :
      (es : List (ℕ × Event)) (c : Cluster D) → AreSound c → AreSound (run_cluster server es c)
  unfolding run_cluster
  run_cluster-AreSound [] c h = h
  run_cluster-AreSound (e ∷ es) c h =
      run_cluster-AreSound es (step_cluster server e c) (step_cluster-AreSound e c h)

  pub all_new-AreSound :
      (d : D)
      → ((s : ℕ × ℕ) → server.depth d s ≡ 0)
      → AreSound (record { leases = λ p. create_lease; database = d })
  unfolding create_lease
  all_new-AreSound d h p n = ground (arith, h (p, n))

  leads :
      (p m : ℕ) (l : Lease) (d : D)
      → IsSound server laws p l d m
      → l.client ≡ some m
      → server.is_lost d (p, m) ≡ false
      → 0 < server.depth d (p, m)
  leads p m l d h parked alive = ground arith

  -- With locks as IsLockServer has them, however the processes, the pool and the database take turns, from
  -- a state in which no session holds the lock: two processes that both have a session parked, which the
  -- database has not lost, are one.
  pub one_leader :
      (es : List (ℕ × Event)) (d : D) (p q m n : ℕ)
      → ((s : ℕ × ℕ) → server.depth d s ≡ 0)
      → let c = run_cluster server es (record { leases = λ r. create_lease; database = d }) in
        (c.leases p).client ≡ some m
        → (c.leases q).client ≡ some n
        → server.is_lost c.database (p, m) ≡ false
        → server.is_lost c.database (q, n) ≡ false
        → p ≡ q
  one_leader es d p q m n free leads_p leads_q alive_p alive_q =
      let start : Cluster D = record { leases = λ r. create_lease; database = d } in
      let c = run_cluster server es start in
      let sound = run_cluster-AreSound es start (all_new-AreSound d free) in
      ap (λ s. s.0)
        (laws.alone c.database (p, m) (q, n)
          (leads p m (c.leases p) c.database (sound p m) leads_p alive_p)
          (leads q n (c.leases q) c.database (sound q n) leads_q alive_q))

  kept :
      (l : Lease) (d : D) (p n : ℕ)
      → IsSound server laws p l d n
      → n < l.next
      → (((l.sessions n).released ≡ true) ⊎ ((is_parked l.client n || waits_on l.job n) ≡ true))
        × (((l.sessions n).released ≡ false)
            ⊎ (((l.sessions n).failed ≡ true) ⊎ (server.depth d (p, n) ≡ 0)))
  kept l d p n h borrowed = ground arith

  -- With locks as IsLockServer has them, and however the processes, the pool and the database take turns
  -- from a state in which no session holds the lock, a session that a process has borrowed is given back,
  -- or parked, or the one that its running call waits on; and one that is given back either had failed or
  -- holds no lock.
  pub no_session_left :
      (es : List (ℕ × Event)) (d : D) (p n : ℕ)
      → ((s : ℕ × ℕ) → server.depth d s ≡ 0)
      → let c = run_cluster server es (record { leases = λ r. create_lease; database = d }) in
        let l = c.leases p in
        n < l.next
        → (((l.sessions n).released ≡ true) ⊎ ((is_parked l.client n || waits_on l.job n) ≡ true))
          × (((l.sessions n).released ≡ false)
              ⊎ (((l.sessions n).failed ≡ true) ⊎ (server.depth c.database (p, n) ≡ 0)))
  no_session_left es d p n free borrowed =
      let start : Cluster D = record { leases = λ r. create_lease; database = d } in
      let c = run_cluster server es start in
      kept (c.leases p) c.database p n (run_cluster-AreSound es start (all_new-AreSound d free) p n)
        borrowed

  -- With locks as IsLockServer has them: when no session holds the lock, as after the death of the process
  -- that led, and the next connection is not a lost one, an idle process without a parked session leads
  -- after one undisturbed call of `ensureHeld`, with the lock acquired once.
  pub contender_takes_over :
      (l : Lease) (d : D) (p : ℕ)
      → l.client ≡ none
      → l.job ≡ idle
      → ((s : ℕ × ℕ) → server.depth d s ≡ 0)
      → server.is_lost d (p, l.next) ≡ false
      → let r1 = step server p ensure_held l d in
        let r2 = step server p connected r1.0 r1.1 in
        let r3 = step server p query_done r2.0 r2.1 in
        let r4 = step server p resume r3.0 r3.1 in
        (r4.0.client ≡ some l.next) × (r4.0.job ≡ idle) × (server.depth r4.1 (p, l.next) ≡ 1)
  unfolding step begin_ensure watch answer_query resume_call finish_acquire
  contender_takes_over l d p contender rests free alive = ground (
    arith,
    contender,
    rests,
    alive,
    laws.try_free d (p, l.next) free alive,
    laws.try_held d (p, l.next),
    free (p, l.next),
  )
