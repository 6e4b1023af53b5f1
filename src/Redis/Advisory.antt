-- ===== src/Redis/Advisory.antt =====
-- The locks of `RedisStateStore` (store/redis-store.ts): `LOCK_ACQUIRE_SCRIPT`, `LOCK_RENEW_SCRIPT`,
-- `LOCK_RELEASE_SCRIPT` and the methods that run them.
use bullmq_durable.Base.{
  ℕ, ◌+◌, String, Option, none, some, Bool, true, false, List, [], ◌∷◌, ◌=s=◌, if◌then◌else◌,
  is_some,
}
use bullmq_durable.Base.Dict.{insert, remove}
use bullmq_durable.Store.{LockRecord}
use bullmq_durable.Redis.{Redis, get_lock}

-- `SET key token PX ttlMs`.
unfoldable pub put_lock : String → String → ℕ → Redis → Redis
put_lock id token expires_at r = record r {
  locks = insert id (record { token = token; expires_at = expires_at }) r.locks;
}

-- `cur == false or cur == token`.
abbrev pub takeable : String → Option LockRecord → Bool
takeable token none = true
takeable token (some l) = l.token =s= token

-- `GET key == token`.
abbrev pub ours : String → Option LockRecord → Bool
ours token none = false
ours token (some l) = l.token =s= token

-- `acquireLock`.
unfoldable pub acquire_lock : String → String → ℕ → ℕ → Redis → Bool × Redis
unfolding put_lock
acquire_lock id token ttl_ms now r =
    if takeable token (get_lock id now r)
    then (true, put_lock id token (now + ttl_ms) r)
    else (false, r)

-- `renewLock`.
unfoldable pub renew_lock : String → String → ℕ → ℕ → Redis → Bool × Redis
unfolding put_lock
renew_lock id token ttl_ms now r =
    if ours token (get_lock id now r)
    then (true, put_lock id token (now + ttl_ms) r)
    else (false, r)

-- `releaseLock`.
unfoldable pub release_lock : String → String → ℕ → Redis → Redis
release_lock id token now r =
    if ours token (get_lock id now r) then record r { locks = remove id r.locks } else r

-- `heldLocks`: the ids of the list whose lock key exists.
unfoldable pub held_locks : List String → ℕ → Redis → List String
held_locks [] now r = []
held_locks (id ∷ ids) now r =
    let rest = held_locks ids now r in if is_some (get_lock id now r) then id ∷ rest else rest
