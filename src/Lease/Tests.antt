-- ===== src/Lease/Tests.antt =====
-- Two processes that share one lock, and the theorems about them.
use buy_not_buy_com.Common.{ℕ, ◌<◌, ◌≡◌, refl, true, false, some, none, List, [], ◌∷◌, arith}
use buy_not_buy_com.Lease.{
  Event, ensure_held, release, connected, query_done, resume, client_error, connection_lost, idle,
  Cluster, create_lease, is_held, run_cluster, lock_key_of, step,
}
use buy_not_buy_com.Lease.Locks.{OneLock, one_lock, free_lock, one_lock-IsLockServer}
use buy_not_buy_com.Lease.Leader.{one_leader, contender_takes_over}

abbrev begin : Cluster OneLock
begin = record { leases = λ p. create_lease; database = free_lock }

abbrev ask : ℕ → List (ℕ × Event) → List (ℕ × Event)
ask p rest = (p, ensure_held) ∷ (p, connected) ∷ (p, query_done) ∷ (p, resume) ∷ rest

abbrev both_ask : List (ℕ × Event)
both_ask = ask 0 (ask 1 [])

abbrev after_both : Cluster OneLock
after_both = run_cluster one_lock both_ask begin

first_leads : (is_held (after_both.leases 0) ≡ true) × (is_held (after_both.leases 1) ≡ false)
unfolding run_cluster is_held create_lease
first_leads = (refl, refl)

-- The connection of the leader dies, and the other process leads.
abbrev after_loss : Cluster OneLock
after_loss =
    run_cluster one_lock ((0, connection_lost 0) ∷ (0, client_error 0) ∷ ask 1 []) after_both

second_leads : (is_held (after_loss.leases 0) ≡ false) × (is_held (after_loss.leases 1) ≡ true)
unfolding run_cluster is_held create_lease
second_leads = (refl, refl)

-- The leader gives the lease up.
abbrev after_release : Cluster OneLock
after_release = run_cluster one_lock ((0, release) ∷ (0, query_done) ∷ (0, resume) ∷ []) after_both

nobody_leads : one_lock.depth after_release.database (0, 0) ≡ 0
unfolding run_cluster create_lease
nobody_leads = refl

key_of_a : lock_key_of (97 ∷ []) ≡ 1678518572
unfolding lock_key_of
key_of_a = refl

free : (s : ℕ × ℕ) → one_lock.depth begin.database s ≡ 0
free s = ground arith

abbrev leader : ℕ
leader = 0

starts_alone : create_lease.client ≡ none
unfolding create_lease
starts_alone = refl

starts_idle : create_lease.job ≡ idle
unfolding create_lease
starts_idle = refl

parked : (after_both.leases 0).client ≡ some 0
unfolding run_cluster create_lease
parked = refl

alive : one_lock.is_lost after_both.database (0, 0) ≡ false
unfolding run_cluster create_lease
alive = refl

one_borrowed : 0 < (after_both.leases 1).next
unfolding run_cluster create_lease
one_borrowed = omega arith

one_leader_example : leader ≡ leader
one_leader_example =
    one_leader one_lock one_lock-IsLockServer both_ask begin.database leader leader 0 0 free parked
      parked alive alive

contender_takes_over_example :
    let r1 = step one_lock 1 ensure_held create_lease free_lock in
    let r2 = step one_lock 1 connected r1.0 r1.1 in
    let r3 = step one_lock 1 query_done r2.0 r2.1 in
    let r4 = step one_lock 1 resume r3.0 r3.1 in
    (r4.0.client ≡ some create_lease.next)
    × (r4.0.job ≡ idle)
    × (one_lock.depth r4.1 (1, create_lease.next) ≡ 1)
contender_takes_over_example =
    contender_takes_over one_lock one_lock-IsLockServer create_lease free_lock 1 starts_alone
      starts_idle free refl
