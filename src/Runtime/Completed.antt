-- ===== src/Runtime/Completed.antt =====
-- A run that is reported as completed is stored as completed.
use bullmq_durable.Runtime.Fails.{Permitted, caught-Permitted, sequence-Permitted}
use bullmq_durable.Store.Locks.{release_lock}
use bullmq_durable.Base.Dict.{lookup, lookup-insert_self}
use bullmq_durable.Base.{
  [], ap, arith, sym, ◌∙◌, refl, Bool-cases, Option-cases, inl, inr, Bool, Option, String, false,
  none, some, true, ℕ, ◌≡◌,
}
use bullmq_durable.Value.Clone.{clone_value-clone_value}
use bullmq_durable.Store.Fence.{terminal_transition-free}
use mathlib.Core.Path.{subst}
use bullmq_durable.Types.{InstanceState, is_terminal, InstanceStatus}
use bullmq_durable.Runtime.{
  yield_pending, Value, RunOutcome, FailureInfo, Params, Program, TickResult, ended,
}
use bullmq_durable.Value.{clone_value}
use bullmq_durable.Store.Instances.{
  begin_tick, fresh_instance, InitInstanceInput, fenced_out, init_instance, complete_instance,
  terminal_transition,
}
use bullmq_durable.Store.{clone_instance, InstanceRecord, Store}
use bullmq_durable.Runtime.Run.{
  begun, after_acquire, deliver, outcome_of, proceed, run, run_locked, suspend, after_processor,
  complete_result, stored_outcome, catching, caught, fail_fast, finish, leaves_to_bullmq,
}
use bullmq_durable.Runtime.Failure.{settle_trigger, run_failure_sequence}
use bullmq_durable.Result.{Result, ok, out_of_fuel, throws}
use bullmq_durable.Executor.{store_does, Tick}

-- The instance is stored as completed, with the output `v`.
pub record Completed (id : String) (v : Value) (s : Store) : Type 0 where
  pub kept : InstanceRecord
  pub found : lookup id s.records ≡ some kept
  pub status : kept.instance.status ≡ InstanceStatus.completed
  pub output : clone_value kept.instance.output ≡ clone_value v

-- If the tick ends in `completed v`, the store says so.
abbrev Agrees : String → Value → Result TickResult × Tick → Type 0
Agrees id v x = x.0 ≡ ok (ended (RunOutcome.completed v)) → Completed id v x.1.store

Permitted-Agrees :
    (p : Params) (v : Value) (x : Result TickResult × Tick)
    → Permitted p x.0
    → Agrees p.instance_id v x
Permitted-Agrees p v (r, t) h e = absurd (subst (Permitted p) e h)

complete_instance-Completed :
    (id : String) (v : Value) (token : Option String) (now : ℕ) (s : Store)
    → (complete_instance id v token now s).0 ≡ true
    → Completed id v (complete_instance id v token now s).1
unfolding complete_instance terminal_transition
complete_instance-Completed id v token now s h = elim (Option-cases (lookup id s.records)) [
  | inl absent ↦ absurd (lost (rw (absent, terminal_transition) at h))
  | inr (r, found) ↦ elim (Bool-cases (fenced_out id token now s)) [
    | inl fenced ↦ absurd (lost (rw (found, terminal_transition, fenced) at h))
    | inr free ↦
        let (won, there) = terminal_transition-free id token _ now s r found free in
        record { kept = _; found = there; status = refl; output = clone_value-clone_value v }
  ]
]
  where
    lost : ¬ (false ≡ true)
    lost q = cc

complete_result-Agrees :
    (id : String) (v w : Value) (x : Bool × Store) (t : Tick)
    → (x.0 ≡ true → Completed id w x.1)
    → Agrees id v (complete_result w x t)
unfolding complete_result
complete_result-Agrees id v w (true, s) t h e =
    let same : w ≡ v = cc in subst (λ y. Completed id y s) same (h refl)
complete_result-Agrees id v w (false, s) t h e = cc

catching-Agrees :
    (p : Params) (token : String) (entered : Bool) (v : Value) (x : Result TickResult × Tick)
    → Agrees p.instance_id v x
    → Agrees p.instance_id v (catching p token entered x)
unfolding catching
catching-Agrees p token entered v (ok r, t) h = h
catching-Agrees p token entered v (throws e, t) h =
    Permitted-Agrees p v (caught p token entered e t) (caught-Permitted p token entered e t)
catching-Agrees p token entered v (out_of_fuel, t) h = h

finish-Agrees :
    (p : Params) (token : String) (entered : Bool) (v w : Value) (t : Tick)
    → Agrees p.instance_id v (finish p token entered w t)
unfolding finish
finish-Agrees p token true v w t =
    Permitted-Agrees p v (run_failure_sequence p token (settle_trigger p none) t)
      (sequence-Permitted p token _ t)
finish-Agrees p token false v w t =
    complete_result-Agrees p.instance_id v w _ t
      (complete_instance-Completed p.instance_id w (some token) t.now t.store)

after_processor-Agrees :
    (p : Params) (token : String) (entered : Bool) (v : Value) (r : Result Value) (t : Tick)
    → Agrees p.instance_id v (after_processor p token entered r t)
unfolding after_processor
after_processor-Agrees p token entered v (ok w) t =
    catching-Agrees p token entered v _ (finish-Agrees p token entered v w t)
after_processor-Agrees p token entered v (throws e) t =
    Permitted-Agrees p v (caught p token entered e t) (caught-Permitted p token entered e t)
after_processor-Agrees p token entered v out_of_fuel t = λ e. cc

-- The state that a tick begins with is the stored one, up to a clone.
init_instance-stored :
    (input : InitInstanceInput) (now : ℕ) (s : Store)
    → (r : InstanceRecord) × (lookup input.instance_id (init_instance input now s).1.records
        ≡ some r)
      × ((init_instance input now s).0 ≡ clone_instance r.instance)
unfolding init_instance
init_instance-stored input now s = elim (Option-cases (lookup input.instance_id s.records)) [
  | inl absent ↦ (
    record { instance = fresh_instance input now; steps = []; terminal_at = none },
    rw (absent, init_instance) (lookup-insert_self input.instance_id _ s.records),
    rw (absent, init_instance) refl,
  )
  | inr (r, found) ↦ elim (Bool-cases (is_terminal r.instance.status)) [
    | inl over ↦ (r, rw (found, init_instance, over) found, rw (found, init_instance, over) refl)
    | inr live ↦ (
      record r { instance = begin_tick now r.instance },
      rw (found, init_instance, live) (lookup-insert_self input.instance_id _ s.records),
      rw (found, init_instance, live) refl,
    )
  ]
]

outcome_of-completed :
    (st : InstanceStatus) (i : InstanceState) {v : Value}
    → outcome_of st i ≡ some (RunOutcome.completed v)
    → (st ≡ InstanceStatus.completed) × (i.output ≡ v)
unfolding outcome_of
outcome_of-completed InstanceStatus.completed i h = (refl, cc)
outcome_of-completed InstanceStatus.failed i h = cc
outcome_of-completed InstanceStatus.compensation_failed i h = cc
outcome_of-completed InstanceStatus.cancelled i h = cc
outcome_of-completed InstanceStatus.running i h = cc
outcome_of-completed InstanceStatus.yielded i h = cc
outcome_of-completed InstanceStatus.compensating i h = cc

stored_outcome-Completed :
    (id : String) (v : Value) (r : InstanceRecord) (i : InstanceState) (s : Store)
    → lookup id s.records ≡ some r
    → i ≡ clone_instance r.instance
    → stored_outcome i ≡ some (RunOutcome.completed v)
    → Completed id v s
unfolding clone_instance
stored_outcome-Completed id v r i s found q h =
    let (done, out) = outcome_of-completed i.status i h in
    record {
      kept = r;
      found = found;
      status = sym (ap (λ x. x.status) q) ∙ done;
      output =
          sym (clone_value-clone_value r.instance.output)
          ∙ ap clone_value (sym (ap (λ x. x.output) q) ∙ out);
    }

proceed-Agrees :
    (p : Params) (token : String) (x : Program) (i : InstanceState) (v : Value)
    (o : Option RunOutcome) (t : Tick)
    → (o ≡ some (RunOutcome.completed v) → Completed p.instance_id v t.store)
    → Agrees p.instance_id v (proceed p token x i o t)
unfolding proceed bullmq_durable.Runtime.Run.execute
proceed-Agrees p token x i v (some o) t h = λ e. h cc
proceed-Agrees p token x i v none t h = after_processor-Agrees p token _ v _ _

run_locked-Agrees :
    (p : Params) (token : String) (x : Program) (v : Value) (t : Tick)
    → Agrees p.instance_id v (run_locked p token x t)
unfolding run_locked begun
run_locked-Agrees p token x v t =
    let (r, found, same) = init_instance-stored _ t.now t.store in
    proceed-Agrees p token x _ v _ _
      (λ h. stored_outcome-Completed p.instance_id v r _ _ found same h)

pub release_lock-records :
    (id token : String) (s : Store) → (release_lock id token s).records ≡ s.records
unfolding release_lock
release_lock-records id token s = ground arith

Completed-release_lock :
    (id token : String) (v : Value) (s : Store)
    → Completed id v s
    → Completed id v (release_lock id token s)
Completed-release_lock id token v s c = record {
  kept = c.kept;
  found = ap (lookup id) (release_lock-records id token s) ∙ c.found;
  status = c.status;
  output = c.output;
}

deliver-Completed :
    (p : Params) (token : String) (v : Value) (r : Result TickResult) (u : Tick)
    → Agrees p.instance_id v (r, u)
    → (deliver p r (store_does (release_lock p.instance_id token) u)).outcome
      ≡ ok (RunOutcome.completed v)
    → Completed p.instance_id v
        (deliver p r (store_does (release_lock p.instance_id token) u)).tick.store
unfolding deliver suspend
deliver-Completed p token v (ok (ended o)) u h e =
    Completed-release_lock p.instance_id token v u.store (h cc)
deliver-Completed p token v (ok (yield_pending x)) u h e = cc
deliver-Completed p token v (throws x) u h e = cc
deliver-Completed p token v out_of_fuel u h e = cc

after_acquire-Completed :
    (p : Params) (token : String) (x : Program) (v : Value) (t : Tick) (a : Bool × Store)
    → (after_acquire p token x t a).outcome ≡ ok (RunOutcome.completed v)
    → Completed p.instance_id v (after_acquire p token x t a).tick.store
unfolding after_acquire suspend
after_acquire-Completed p token x v t (false, s) e = cc
after_acquire-Completed p token x v t (true, s) e =
    deliver-Completed p token v _ _ (run_locked-Agrees p token x v _) e

-- When a delivery completes its job with the output `v`, the store that it leaves behind holds the
-- instance as completed, with the clone of `v` as the clone of its output. This is so for a run that
-- completes now, and for one that replays its stored outcome.
pub run-Completed :
    (p : Params) (token : String) (processor : Program) (v : Value) (now : ℕ) (s : Store)
    → (run p token processor now s).outcome ≡ ok (RunOutcome.completed v)
    → Completed p.instance_id v (run p token processor now s).tick.store
unfolding run
run-Completed p token processor v now s e = after_acquire-Completed p token processor v _ _ e
