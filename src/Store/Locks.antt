-- ===== src/Store/Locks.antt =====
-- The advisory locks of `MemoryStateStore` (store/memory-store.ts).
use bullmq_durable.Base.{
  ℕ, ◌+◌, String, Option, none, some, Bool, true, false, ◌&&◌, List, [], ◌∷◌, ltb, ◌=s=◌,
  if◌then◌else◌,
}
use bullmq_durable.Base.Dict.{lookup, insert, remove}
use bullmq_durable.Store.{Store, LockRecord}
use bullmq_durable.Store.Instances.{held_by_other}

unfoldable pub set_lock : String → String → ℕ → Store → Store
set_lock id token expires_at s = record s {
  locks = insert id (record { token = token; expires_at = expires_at }) s.locks;
}

-- `acquireLock`.
unfoldable pub acquire_lock : String → String → ℕ → ℕ → Store → Bool × Store
unfolding set_lock held_by_other
acquire_lock id token ttl_ms now s =
    if held_by_other id token now s then (false, s) else (true, set_lock id token (now + ttl_ms) s)

unfoldable pub renewable : String → ℕ → Option LockRecord → Bool
renewable token now none = false
renewable token now (some l) = (l.token =s= token) && ltb now l.expires_at

-- `renewLock`.
unfoldable pub renew_lock : String → String → ℕ → ℕ → Store → Bool × Store
unfolding set_lock renewable
renew_lock id token ttl_ms now s =
    if renewable token now (lookup id s.locks)
    then (true, set_lock id token (now + ttl_ms) s)
    else (false, s)

unfoldable pub releasable : String → Option LockRecord → Bool
releasable token none = false
releasable token (some l) = l.token =s= token

-- `releaseLock`.
unfoldable pub release_lock : String → String → Store → Store
unfolding releasable
release_lock id token s =
    if releasable token (lookup id s.locks) then record s { locks = remove id s.locks } else s

unfoldable pub is_held : ℕ → Option LockRecord → Bool
is_held now none = false
is_held now (some l) = ltb now l.expires_at

-- `heldLocks`: the ids of the list whose lock is live.
unfoldable pub held_locks : List String → ℕ → Store → List String
unfolding is_held
held_locks [] now s = []
held_locks (id ∷ ids) now s =
    let rest = held_locks ids now s in if is_held now (lookup id s.locks) then id ∷ rest else rest
