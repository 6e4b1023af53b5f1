-- ===== src/Runtime/Locked.antt =====
-- The instance lock around a tick (execution/runtime.ts): a contended tick does nothing, a finished
-- instance is replayed and not run, and no tick leaves its lock behind.
use bullmq_durable.Runtime.Completed.{release_lock-records}
use bullmq_durable.Types.{InstanceState, InstanceStatus, is_terminal}
use bullmq_durable.Store.Mutex.{acquire_lock-Holds}
use bullmq_durable.Store.Locks.{release_lock, acquire_lock}
use bullmq_durable.Store.Instances.{InitInstanceInput, held_by_other, init_instance}
use bullmq_durable.Store.Fence.{Holds}
use bullmq_durable.Store.{LockRecord, InstanceRecord, Store, clone_instance}
use bullmq_durable.Runtime.Run.{
  begun, init_input, Delivery, after_acquire, deliver, outcome_of, proceed, run, run_locked,
  stored_error, stored_outcome, suspend, can_move,
}
use bullmq_durable.Runtime.{
  RuntimeJob, suspended, yield_pending, TickResult, ended, Params, Program, RunOutcome, fresh_tick,
  lock_ttl_ms,
}
use bullmq_durable.Errors.{SerializedError, deserialize_error, plain_error}
use bullmq_durable.Result.{out_of_fuel, throws, Result, ok}
use bullmq_durable.Executor.{store_does, Tick}
use bullmq_durable.Base.{
  arith, eq_iff, eq_refl, Option-cases, inl, inr, [], Bool, String, ap, false, none, some, true, ℕ,
  Option, if◌then◌else◌, ◌+◌, ◌∙◌, ◌≡◌, ◌≢◌, refl,
}
use bullmq_durable.Base.Dict.{lookup, lookup-remove}

acquire_lock-contended :
    (id token token' : String) (ttl now : ℕ) (s : Store)
    → Holds id token now s
    → token ≢ token'
    → acquire_lock id token' ttl now s ≡ (false, s)
acquire_lock-contended id token token' ttl now s h ne =
    acquire_lock-Holds id token token' ttl now s h.lock h.found h.owned h.live ne

-- While another token holds the lock, a delivery is suspended: the store is left as it was, no body
-- is run, and the job is due again 5000 ms later if it can be moved, and is not moved otherwise.
pub run-contended :
    (p : Params) (holder token : String) (processor : Program) (now : ℕ) (s : Store)
    (job : RuntimeJob)
    → Holds p.instance_id holder now s
    → holder ≢ token
    → p.job ≡ some job
    → let d = run p token processor now s in
      (d.outcome ≡ ok suspended)
      × (d.moved_to ≡ (if job.can_move then some (now + 5000) else none))
      × (d.tick.invoked ≡ [])
      × (d.tick.store ≡ s)
unfolding run after_acquire fresh_tick suspend
run-contended p holder token processor now s job h ne carried =
    rw (acquire_lock-contended p.instance_id holder token lock_ttl_ms now s h ne, after_acquire)
      (refl, ap due carried, refl, refl)
  where
    due : Option RuntimeJob → Option ℕ
    due o = if can_move o then some (now + 5000) else none

acquire_lock-free :
    (id token : String) (ttl now : ℕ) (s : Store)
    → held_by_other id token now s ≡ false
    → ((acquire_lock id token ttl now s).0 ≡ true)
      × ((acquire_lock id token ttl now s).1.records ≡ s.records)
unfolding acquire_lock
acquire_lock-free id token ttl now s h = rw (h) (refl, refl)

-- The outcome of a run that failed with the stored error.
abbrev pub FailedWith : Option SerializedError → RunOutcome → Type 0
FailedWith none o = o ≡ RunOutcome.failed (plain_error "Instance failed")
FailedWith (some e) o = o ≡ RunOutcome.failed (deserialize_error e)

-- The outcome of a finished run: its output if it completed, its error if it or its compensation
-- failed.
abbrev pub Finished : InstanceStatus → InstanceState → RunOutcome → Type 0
Finished InstanceStatus.completed i o = o ≡ RunOutcome.completed i.output
Finished InstanceStatus.failed i o = FailedWith i.error o
Finished InstanceStatus.compensation_failed i o = FailedWith i.error o
Finished InstanceStatus.cancelled i o = o ≡ RunOutcome.cancelled
Finished _ i o = ⊥

-- The store has the records of `s`, no body was run, and the outcome is that of the finished run.
abbrev pub Replays : Delivery → InstanceState → Store → Type 0
Replays d i s =
    (o : RunOutcome) × (Finished i.status i o)
    × (d.outcome ≡ ok o)
    × (d.moved_to ≡ none)
    × (d.tick.invoked ≡ [])
    × (d.tick.store.records ≡ s.records)

init_instance-terminal :
    (input : InitInstanceInput) (now : ℕ) (s : Store) (r : InstanceRecord)
    → lookup input.instance_id s.records ≡ some r
    → is_terminal r.instance.status ≡ true
    → init_instance input now s ≡ (clone_instance r.instance, s)
unfolding init_instance
init_instance-terminal input now s r found over = rw (found, init_instance, over) refl

stored_error-FailedWith :
    (e : Option SerializedError) → FailedWith e (RunOutcome.failed (stored_error e))
unfolding stored_error
stored_error-FailedWith none = refl
stored_error-FailedWith (some e) = refl

outcome_of-terminal :
    (st : InstanceStatus) (i : InstanceState)
    → is_terminal st ≡ true
    → (o : RunOutcome) × ((outcome_of st i ≡ some o) × Finished st i o)
unfolding outcome_of
outcome_of-terminal InstanceStatus.completed i h = (_, (refl, refl))
outcome_of-terminal InstanceStatus.failed i h = (_, (refl, stored_error-FailedWith i.error))
outcome_of-terminal InstanceStatus.compensation_failed i h =
    (_, (refl, stored_error-FailedWith i.error))
outcome_of-terminal InstanceStatus.cancelled i h = (_, (refl, refl))
outcome_of-terminal InstanceStatus.running i h = cc
outcome_of-terminal InstanceStatus.yielded i h = cc
outcome_of-terminal InstanceStatus.compensating i h = cc

run_locked-terminal :
    (p : Params) (token : String) (x : Program) (t : Tick) (r : InstanceRecord) (o : RunOutcome)
    → lookup p.instance_id t.store.records ≡ some r
    → is_terminal r.instance.status ≡ true
    → stored_outcome (clone_instance r.instance) ≡ some o
    → run_locked p token x t ≡ (ok (ended o), t)
unfolding run_locked begun proceed
run_locked-terminal p token x t r o found over stored =
    ap (begun p token x t) (init_instance-terminal (init_input p) t.now t.store r found over)
    ∙ ap (λ y. proceed p token x (clone_instance r.instance) y t) stored

-- What a delivery that has the lock, and whose tick ends in `o`, leaves.
deliver-ended :
    (p : Params) (token : String) (o : RunOutcome) (t : Tick) (x : Result TickResult × Tick)
    → x ≡ (ok (ended o), t)
    → let d = deliver p x.0 (store_does (release_lock p.instance_id token) x.1) in
      (d.outcome ≡ ok o)
      × (d.moved_to ≡ none)
      × (d.tick.invoked ≡ t.invoked)
      × (d.tick.store.records ≡ t.store.records)
unfolding deliver
deliver-ended p token o t x e =
    rw (e, deliver) (refl, refl, refl, release_lock-records p.instance_id token t.store)

after_acquire-Replays :
    (p : Params) (token : String) (x : Program) (t : Tick) (a : Bool × Store) (s : Store)
    (r : InstanceRecord)
    → a.0 ≡ true
    → a.1.records ≡ s.records
    → t.invoked ≡ []
    → lookup p.instance_id s.records ≡ some r
    → is_terminal r.instance.status ≡ true
    → Replays (after_acquire p token x t a) (clone_instance r.instance) s
unfolding after_acquire clone_instance
after_acquire-Replays p token x t (false, u) s r won same quiet found over = cc
after_acquire-Replays p token x t (true, u) s r won same quiet found over =
    let (o, (stored, finished)) =
      outcome_of-terminal r.instance.status (clone_instance r.instance) over in
    let (out, moved, ran, kept) =
      deliver-ended p token o (record t { store = u }) _
        (run_locked-terminal p token x (record t { store = u }) r o
          (ap (lookup p.instance_id) same ∙ found) over stored) in
    (o, finished, out, moved, ran ∙ quiet, kept ∙ same)

-- A delivery of a finished run replays its stored outcome: the lock being free, it runs no body,
-- moves no job and leaves every instance record as it was.
pub run-Replays :
    (p : Params) (token : String) (processor : Program) (now : ℕ) (s : Store) (r : InstanceRecord)
    → lookup p.instance_id s.records ≡ some r
    → is_terminal r.instance.status ≡ true
    → held_by_other p.instance_id token now s ≡ false
    → Replays (run p token processor now s) (clone_instance r.instance) s
unfolding run fresh_tick
run-Replays p token processor now s r found over free =
    let (won, same) = acquire_lock-free p.instance_id token lock_ttl_ms now s free in
    after_acquire-Replays p token processor _ _ s r won same refl found over

-- The lock is absent, or another's.
abbrev pub Frees : String → String → Store → Type 0
Frees id token s = (l : LockRecord) → lookup id s.locks ≡ some l → l.token ≢ token

release_lock-Frees : (id token : String) (s : Store) → Frees id token (release_lock id token s)
unfolding release_lock
release_lock-Frees id token s l found owned = elim (Option-cases (lookup id s.locks)) [
  | inl absent ↦ ground (arith, found, absent)
  | inr (k, there) ↦
      ground
        (arith, found, owned, there, lookup-remove id id s.locks, eq_iff k.token token, eq_refl id)
]

deliver-Frees :
    (p : Params) (token : String) (r : Result TickResult) (u : Tick)
    → Frees p.instance_id token
        (deliver p r (store_does (release_lock p.instance_id token) u)).tick.store
unfolding deliver suspend
deliver-Frees p token (ok (ended o)) u = release_lock-Frees p.instance_id token u.store
deliver-Frees p token (ok (yield_pending x)) u = release_lock-Frees p.instance_id token u.store
deliver-Frees p token (throws e) u = release_lock-Frees p.instance_id token u.store
deliver-Frees p token out_of_fuel u = release_lock-Frees p.instance_id token u.store

after_acquire-Frees :
    (p : Params) (token : String) (x : Program) (t : Tick) (a : Bool × Store)
    → (a.0 ≡ false → Frees p.instance_id token a.1)
    → Frees p.instance_id token (after_acquire p token x t a).tick.store
unfolding after_acquire suspend
after_acquire-Frees p token x t (false, s) h = h refl
after_acquire-Frees p token x t (true, s) h = deliver-Frees p token _ _

acquire_lock-Frees :
    (id token : String) (ttl now : ℕ) (s : Store)
    → (acquire_lock id token ttl now s).0 ≡ false
    → Frees id token (acquire_lock id token ttl now s).1
unfolding acquire_lock held_by_other
acquire_lock-Frees id token ttl now s lost l found owned =
    ground (arith, lost, found, owned, eq_iff l.token token)

-- However a delivery ends, it leaves the instance without a lock of its own token.
pub run-Frees :
    (p : Params) (token : String) (processor : Program) (now : ℕ) (s : Store)
    → Frees p.instance_id token (run p token processor now s).tick.store
unfolding run
run-Frees p token processor now s =
    after_acquire-Frees p token processor _ _
      (acquire_lock-Frees p.instance_id token lock_ttl_ms now s)
