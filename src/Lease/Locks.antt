-- ===== src/Lease/Locks.antt =====
-- What the lease relies on of PostgreSQL's session-level advisory locks, and locks that have it.
use buy_not_buy_com.Common.{
  ℕ, ◌+◌, ◌-◌, ◌<◌, ◌≡◌, ◌↔◌, Bool, true, false, ◌&&◌, ◌||◌, not, ltb, ◌==◌, if◌then◌else◌, arith,
}
use buy_not_buy_com.Lease.{SessionId, LockServer}

abbrev pub same : SessionId → SessionId → Bool
same s t = s.0 == t.0 && s.1 == t.1

pub same_iff : (s t : SessionId) → (same s t ≡ true) ↔ (s ≡ t)
same_iff (a, b) (c, d) = ground arith

-- An acquisition by a session that holds the lock counts one more; it is denied only to a session that
-- does not hold it, and only when some session does; and no statement of one session changes what another holds.
pub record IsLockServer {D : Type 0} (server : LockServer D) : Type 0 where
  pub alone : (d : D) (s t : SessionId) → 0 < server.depth d s → 0 < server.depth d t → s ≡ t
  pub lost_free : (d : D) (s : SessionId) → server.is_lost d s ≡ true → server.depth d s ≡ 0
  pub try_held :
      (d : D) (s : SessionId)
      → (server.try_lock s d).1 ≡ true
      → server.depth ((server.try_lock s d).0) s ≡ server.depth d s + 1
  pub try_denied :
      (d : D) (s : SessionId)
      → (server.try_lock s d).1 ≡ false
      → (server.depth d s ≡ 0) × (server.depth ((server.try_lock s d).0) s ≡ 0)
  pub try_free :
      (d : D) (s : SessionId)
      → ((t : SessionId) → server.depth d t ≡ 0)
      → server.is_lost d s ≡ false
      → (server.try_lock s d).1 ≡ true
  pub try_other :
      (d : D) (s t : SessionId)
      → same s t ≡ false
      → server.depth ((server.try_lock s d).0) t ≡ server.depth d t
  pub try_lost :
      (d : D) (s t : SessionId) → server.is_lost ((server.try_lock s d).0) t ≡ server.is_lost d t
  pub unlock_own :
      (d : D) (s : SessionId) → server.depth (server.unlock s d) s ≡ server.depth d s - 1
  pub unlock_other :
      (d : D) (s t : SessionId)
      → same s t ≡ false
      → server.depth (server.unlock s d) t ≡ server.depth d t
  pub unlock_lost :
      (d : D) (s t : SessionId) → server.is_lost (server.unlock s d) t ≡ server.is_lost d t
  pub lose_own : (d : D) (s : SessionId) → server.is_lost (server.lose s d) s ≡ true
  pub lose_other :
      (d : D) (s t : SessionId)
      → same s t ≡ false
      → (server.depth (server.lose s d) t ≡ server.depth d t)
        × (server.is_lost (server.lose s d) t ≡ server.is_lost d t)

-- One lock: its last holder, how often that session holds it, and the sessions that are lost.
pub record OneLock : Type 0 where
  pub holder : SessionId
  pub count : ℕ
  pub lost : SessionId → Bool

abbrev depth_in : OneLock → SessionId → ℕ
depth_in d s = if same d.holder s && not (d.lost s) then d.count else 0

abbrev pub one_lock : LockServer OneLock
one_lock = record {
  depth = depth_in;
  is_lost = λ d s. d.lost s;
  try_lock = λ s d.
      if d.lost s
      then (d, false)
      else if same d.holder s
      then (record d { count = d.count + 1 }, true)
      else if ltb 0 (depth_in d d.holder)
      then (d, false)
      else (record d { holder = s; count = 1 }, true);
  unlock = λ s d. if same d.holder s then record d { count = d.count - 1 } else d;
  lose = λ s d. record d { lost = λ t. same s t || d.lost t };
}

abbrev pub free_lock : OneLock
free_lock = record { holder = (0, 0); count = 0; lost = λ s. false }

pub one_lock-IsLockServer : IsLockServer one_lock
one_lock-IsLockServer = record {
  alone = λ d s t h k. ground (arith, same_iff d.holder s, same_iff d.holder t);
  lost_free = λ d s h. ground arith;
  try_held = λ d s h. ground arith;
  try_denied = λ d s h. ground arith;
  try_free = λ d s h k. ground (arith, h d.holder);
  try_other = λ d s t h. ground arith;
  try_lost = λ d s t. ground arith;
  unlock_own = λ d s. ground arith;
  unlock_other = λ d s t h. ground arith;
  unlock_lost = λ d s t. ground arith;
  lose_own = λ d s. ground arith;
  lose_other = λ d s t h. ground arith;
}
