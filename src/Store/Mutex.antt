-- ===== src/Store/Mutex.antt =====
-- Mutual exclusion by the instance lock, over any sequence of the lock calls of other holders.
use bullmq_durable.Base.{
  ℕ, ◌+◌, ◌<◌, String, some, true, false, ◌≡◌, refl, ap, ◌≢◌, arith, eq_iff, List, [], ◌∷◌, All,
  Bool, eq_refl,
}
use bullmq_durable.Base.Dict.{lookup, lookup-insert}
use bullmq_durable.Store.{Store, LockRecord}
use bullmq_durable.Store.Locks.{acquire_lock, renew_lock, release_lock}
use bullmq_durable.Store.Fence.{Holds}

pub data LockCall : Type 0 where
  acquires renews : String → ℕ → LockCall
  releases : String → LockCall

abbrev pub caller : LockCall → String
caller (acquires token ttl) = token
caller (renews token ttl) = token
caller (releases token) = token

-- A call at a time: what it answers, and the store after it. `releaseLock` answers nothing.
pub lock_call : String → LockCall → ℕ → Store → Bool × Store
lock_call id (acquires token ttl) now s = acquire_lock id token ttl now s
lock_call id (renews token ttl) now s = renew_lock id token ttl now s
lock_call id (releases token) now s = (false, release_lock id token s)

pub acquire_lock-Holds :
    (id token token' : String) (ttl now : ℕ) (s : Store) (l : LockRecord)
    → lookup id s.locks ≡ some l
    → l.token ≡ token
    → now < l.expires_at
    → token ≢ token'
    → acquire_lock id token' ttl now s ≡ (false, s)
unfolding acquire_lock
acquire_lock-Holds id token token' ttl now s l found owned live ne =
    ground (arith, eq_iff l.token token')

renew_lock-other :
    (id token token' : String) (ttl now : ℕ) (s : Store) (l : LockRecord)
    → lookup id s.locks ≡ some l
    → l.token ≡ token
    → token ≢ token'
    → renew_lock id token' ttl now s ≡ (false, s)
unfolding renew_lock
renew_lock-other id token token' ttl now s l found owned ne = ground (arith, eq_iff l.token token')

release_lock-other :
    (id token token' : String) (s : Store) (l : LockRecord)
    → lookup id s.locks ≡ some l
    → l.token ≡ token
    → token ≢ token'
    → release_lock id token' s ≡ s
unfolding release_lock
release_lock-other id token token' s l found owned ne = ground (arith, eq_iff l.token token')

-- While a lock is live, a lock call of any other token fails and changes nothing.
pub lock_call-Holds :
    (id token : String) (c : LockCall) (now : ℕ) (s : Store)
    → Holds id token now s
    → token ≢ caller c
    → lock_call id c now s ≡ (false, s)
unfolding lock_call
lock_call-Holds id token (acquires t ttl) now s h ne =
    acquire_lock-Holds id token t ttl now s h.lock h.found h.owned h.live ne
lock_call-Holds id token (renews t ttl) now s h ne =
    renew_lock-other id token t ttl now s h.lock h.found h.owned ne
lock_call-Holds id token (releases t) now s h ne =
    ap (λ x. (false, x)) (release_lock-other id token t s h.lock h.found h.owned ne)

new_lock : String → ℕ → ℕ → LockRecord
new_lock token ttl now = record { token = token; expires_at = now + ttl }

-- A successful `acquireLock` holds the lock until its time is over.
pub acquire_lock-Holds' :
    (id token : String) (ttl now later : ℕ) (s : Store)
    → (acquire_lock id token ttl now s).0 ≡ true
    → later < now + ttl
    → Holds id token later (acquire_lock id token ttl now s).1
unfolding acquire_lock new_lock
acquire_lock-Holds' id token ttl now later s granted h = record {
  lock = new_lock token ttl now;
  found = ground (arith, lookup-insert id id (new_lock token ttl now) s.locks, eq_refl id);
  owned = refl;
  live = h;
}

-- So does a successful `renewLock`.
pub renew_lock-Holds :
    (id token : String) (ttl now later : ℕ) (s : Store)
    → (renew_lock id token ttl now s).0 ≡ true
    → later < now + ttl
    → Holds id token later (renew_lock id token ttl now s).1
unfolding renew_lock new_lock
renew_lock-Holds id token ttl now later s granted h = record {
  lock = new_lock token ttl now;
  found = ground (arith, lookup-insert id id (new_lock token ttl now) s.locks, eq_refl id);
  owned = refl;
  live = h;
}

pub run_calls : String → List (ℕ × LockCall) → Store → List Bool × Store
run_calls id [] s = ([], s)
run_calls id ((now, c) ∷ cs) s =
    let (granted, s') = lock_call id c now s in
    let (rest, end) = run_calls id cs s' in (granted ∷ rest, end)

-- The calls are of other tokens, and are made before `deadline`.
abbrev pub Rivals : String → ℕ → List (ℕ × LockCall) → Type 0
Rivals token deadline = All (λ c. (token ≢ caller c.1) × (c.0 < deadline))

abbrev pub NoneGranted : List Bool → Type 0
NoneGranted = All (λ granted. granted ≡ false)

run_calls-Holds :
    (id token : String) (deadline : ℕ) (cs : List (ℕ × LockCall)) (s : Store)
    → ((later : ℕ) → later < deadline → Holds id token later s)
    → Rivals token deadline cs
    → NoneGranted (run_calls id cs s).0 × ((run_calls id cs s).1 ≡ s)
unfolding run_calls
run_calls-Holds id token deadline [] s held rivals = (tt, refl)
run_calls-Holds id token deadline ((now, c) ∷ cs) s held ((ne, early), rivals) =
    rw (lock_call-Holds id token c now s (held now early) ne)
      (let rest = run_calls-Holds id token deadline cs s held rivals in ((refl, rest.0), rest.1))

-- After a granted `acquireLock`, and until its time to live is over, every lock call of every other
-- token in any sequence is refused, and the store stays as the grant left it.
pub acquire_lock_excludes :
    (id token : String) (ttl now : ℕ) (s : Store) (cs : List (ℕ × LockCall))
    → (acquire_lock id token ttl now s).0 ≡ true
    → Rivals token (now + ttl) cs
    → NoneGranted (run_calls id cs (acquire_lock id token ttl now s).1).0
      × ((run_calls id cs (acquire_lock id token ttl now s).1).1
          ≡ (acquire_lock id token ttl now s).1)
acquire_lock_excludes id token ttl now s cs granted rivals =
    run_calls-Holds id token (now + ttl) cs _
      (λ later early. acquire_lock-Holds' id token ttl now later s granted early) rivals
