-- ===== src/Redis/Refines/Locks.antt =====
-- The lock methods of the two stores.
use bullmq_durable.Base.{
  ℕ, ◌+◌, String, Option, none, some, ◌≡◌, refl, sym, ap, ◌∙◌, inl, inr, Bool, true, false, not,
  ◌&&◌, Bool-cases, List, [], ◌∷◌, if◌then◌else◌, ◌=s=◌, ltb, eq_iff, is_some, arith,
}
use mathlib.Core.Path.{subst}
use bullmq_durable.Base.Dict.{lookup, remove, lookup-insert, lookup-remove}
use bullmq_durable.Store.{Store, LockRecord}
use bullmq_durable.Store.Instances.{held_by_other}
use bullmq_durable.Store.Locks.{set_lock, renewable, releasable, is_held}
use bullmq_durable.Redis.{Redis, get_lock, live, steps_of}
use bullmq_durable.Redis.Advisory.{put_lock, takeable, ours}
use bullmq_durable.Redis.Matches.{Matches}
use bullmq_durable.Redis.Refines.Known.{Simulates}
use bullmq_durable.Store.Locks
use bullmq_durable.Redis.Advisory

-- What the tests of the memory store are of the lock that is live.
takeable-live :
    (token : String) (now : ℕ) (o : Option LockRecord)
    → takeable token (live now o)
      ≡ not (elim o [ none ↦ false | some l ↦ ltb now l.expires_at && not (l.token =s= token) ])
unfolding live
takeable-live token now none = refl
takeable-live token now (some l) = elim (Bool-cases (ltb now l.expires_at)) [
  | inl e ↦ rw (e) (not-not (l.token =s= token))
  | inr e ↦ rw (e) refl
]
  where
    not-not : (b : Bool) → b ≡ not (not b)
    not-not true = refl
    not-not false = refl

ours-live :
    (token : String) (now : ℕ) (o : Option LockRecord)
    → ours token (live now o) ≡ renewable token now o
unfolding live renewable
ours-live token now none = refl
ours-live token now (some l) = ground arith

is_some-live : (now : ℕ) (o : Option LockRecord) → is_some (live now o) ≡ is_held now o
unfolding live is_held
is_some-live now none = refl
is_some-live now (some l) = ground arith

if_live :
    (b : Bool) (now : ℕ) (o x y : Option LockRecord)
    → live now x ≡ live now y
    → live now (if b then o else x) ≡ live now (if b then o else y)
if_live true now o x y e = refl
if_live false now o x y e = e

Matches-put_lock :
    (id token : String) (end now : ℕ) (r : Redis) (s : Store)
    → Matches now r s
    → Matches now (put_lock id token end r) (set_lock id token end s)
unfolding put_lock set_lock get_lock steps_of
Matches-put_lock id token end now r s m = record {
  entries = m.entries;
  locked = λ name.
      rw (lookup-insert id name _ r.locks, lookup-insert id name _ s.locks)
        (if_live (id =s= name) now _ _ _ (m.locked name));
}

Matches-remove_lock :
    (id : String) (now : ℕ) (r : Redis) (s : Store)
    → Matches now r s
    → Matches now (record r { locks = remove id r.locks }) (record s { locks = remove id s.locks })
unfolding get_lock steps_of
Matches-remove_lock id now r s m = record {
  entries = m.entries;
  locked = λ name.
      rw (lookup-remove id name r.locks, lookup-remove id name s.locks)
        (if_live (id =s= name) now _ _ _ (m.locked name));
}

pub acquire_lock-Simulates :
    (id token : String) (ttl now : ℕ) (r : Redis) (s : Store)
    → Matches now r s
    → Simulates now
        (Advisory.acquire_lock id token ttl now r)
        (Locks.acquire_lock id token ttl now s)
unfolding Advisory.acquire_lock Locks.acquire_lock held_by_other
acquire_lock-Simulates id token ttl now r s m =
    rw (m.locked id, takeable-live token now (lookup id s.locks))
      (granted (held_by_other id token now s))
  where
    granted :
        (b : Bool)
        → Simulates now
            (if not b then (true, put_lock id token (now + ttl) r) else (false, r))
            (if b then (false, s) else (true, set_lock id token (now + ttl) s))
    granted true = (refl, m)
    granted false = (refl, Matches-put_lock id token (now + ttl) now r s m)

pub renew_lock-Simulates :
    (id token : String) (ttl now : ℕ) (r : Redis) (s : Store)
    → Matches now r s
    → Simulates now (Advisory.renew_lock id token ttl now r) (Locks.renew_lock id token ttl now s)
unfolding Advisory.renew_lock Locks.renew_lock
renew_lock-Simulates id token ttl now r s m =
    rw (m.locked id, ours-live token now (lookup id s.locks))
      (elim (Bool-cases (renewable token now (lookup id s.locks))) [
        | inl e ↦ rw (e) (refl, Matches-put_lock id token (now + ttl) now r s m)
        | inr e ↦ rw (e) (refl, m)
      ])

renewable-releasable :
    (token : String) (now : ℕ) (o : Option LockRecord)
    → renewable token now o ≡ true
    → releasable token o ≡ true
unfolding renewable releasable
renewable-releasable token now none h = cc
renewable-releasable token now (some l) h = ground (arith)

-- A lock of the token that is not live is over.
releasable-over :
    (token : String) (now : ℕ) (o : Option LockRecord)
    → renewable token now o ≡ false
    → releasable token o ≡ true
    → live now o ≡ none
unfolding renewable releasable live
releasable-over token now none h own = refl
releasable-over token now (some l) h own = ground (arith)

if_over :
    (id name : String) (now : ℕ) (r : Redis) (s : Store)
    → Matches now r s
    → live now (lookup id s.locks) ≡ none
    → get_lock name now r ≡ live now (if id =s= name then none else lookup name s.locks)
unfolding live
if_over id name now r s m over = elim (Bool-cases (id =s= name)) [
  | inl e ↦
      rw (e) (subst (λ x. get_lock x now r ≡ none) ((eq_iff id name).0 e) (m.locked id ∙ over))
  | inr e ↦ rw (e) (m.locked name)
]

-- Memory drops a lock that is over, which Redis has dropped before.
Matches-drop_over :
    (id : String) (now : ℕ) (r : Redis) (s : Store)
    → Matches now r s
    → live now (lookup id s.locks) ≡ none
    → Matches now r (record s { locks = remove id s.locks })
Matches-drop_over id now r s m over = record {
  entries = m.entries;
  locked =
      λ name. if_over id name now r s m over ∙ ap (live now) (sym (lookup-remove id name s.locks));
}

pub release_lock-Simulates :
    (id token : String) (now : ℕ) (r : Redis) (s : Store)
    → Matches now r s
    → Matches now (Advisory.release_lock id token now r) (Locks.release_lock id token s)
unfolding Advisory.release_lock Locks.release_lock
release_lock-Simulates id token now r s m =
    rw (m.locked id, ours-live token now (lookup id s.locks))
      (elim (Bool-cases (renewable token now (lookup id s.locks))) [
        | inl e ↦ rw (e, renewable-releasable token now _ e) (Matches-remove_lock id now r s m)
        | inr e ↦ elim (Bool-cases (releasable token (lookup id s.locks))) [
          | inl own ↦
              rw (e, own) (Matches-drop_over id now r s m (releasable-over token now _ e own))
          | inr other ↦ rw (e, other) m
        ]
      ])

pub held_locks-Simulates :
    (ids : List String) (now : ℕ) (r : Redis) (s : Store)
    → Matches now r s
    → Advisory.held_locks ids now r ≡ Locks.held_locks ids now s
unfolding Advisory.held_locks Locks.held_locks
held_locks-Simulates [] now r s m = refl
held_locks-Simulates (id ∷ ids) now r s m =
    rw (m.locked id, is_some-live now (lookup id s.locks), held_locks-Simulates ids now r s m) refl
