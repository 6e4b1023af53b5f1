-- ===== src/Executor/Checkpoint.antt =====
-- What the attempt loop returns is the checkpoint that it saved.
use bullmq_durable.Value.Clone.{clone_value-clone_value}
use bullmq_durable.Base.{
  refl, Bool, if◌then◌else◌, zero, suc, ◌+◌, false, inl, inr, none, Option-cases, some, true,
  String, ℕ, ◌≡◌, arith,
}
use bullmq_durable.Store.Steps.{save_step}
use bullmq_durable.Executor.Attempt.{
  completed_state, attempt_round, attempt_loop, after_failure, end_round, save, checkpoint,
  register_rollback, Attempt,
}
use bullmq_durable.Executor.Step.{storage_key}
use bullmq_durable.Base.Dict.{lookup, lookup-insert_self}
use bullmq_durable.Store.{Store, InstanceRecord, update_record, clone_step}
use bullmq_durable.Result.{throws, out_of_fuel, Result, ok}
use bullmq_durable.Value.{Value, clone_value}
use bullmq_durable.Types.{StepState, is_completed_step}
use bullmq_durable.Executor.{
  returned, raised, Body, end_of, run_body, Outcome, Thrown, Action, resume, StepOptions, Tick,
}

-- The store holds the checkpoint `v` under the storage key, if it knows the instance.
abbrev pub Checkpointed : String → String → Value → Store → Type 0
Checkpointed id step_key v s =
    (r : InstanceRecord)
    → lookup id s.records ≡ some r
    → (st : StepState) × (lookup step_key r.steps ≡ some st)
      × (is_completed_step st.status ≡ true)
      × (clone_value st.result ≡ v)

-- The tick's own checkpoint of the step `key`.
abbrev pub Keeps : String → String → Value → Tick → Type 0
Keeps id key v t = Checkpointed id (storage_key key t) v t.store

-- If the call yields a value, that value is the step's checkpoint.
abbrev pub Good : String → String → Result Value × Tick → Type 0
Good id key x = (v : Value) → x.0 ≡ ok v → Keeps id key v x.1

pub register_rollback_frame :
    (key : String) (seq : ℕ) (v : Value) (o : StepOptions) (t : Tick)
    → ((register_rollback key seq v o t).store ≡ t.store)
      × ((register_rollback key seq v o t).active_phase ≡ t.active_phase)
      × ((register_rollback key seq v o t).invoked ≡ t.invoked)
      × ((register_rollback key seq v o t).now ≡ t.now)
unfolding register_rollback
register_rollback_frame key seq v o t = ground arith

record_of_none :
    (f : InstanceRecord → InstanceRecord) (id : String) (s : Store) (r : InstanceRecord)
    → lookup id s.records ≡ none
    → lookup id (update_record f id s).records ≡ some r
    → lookup id s.records ≡ some r
unfolding update_record
record_of_none f id s r n e = rw (n, update_record) at e

update_record-lookup :
    (f : InstanceRecord → InstanceRecord) (id : String) (s : Store) (r : InstanceRecord)
    → lookup id (update_record f id s).records ≡ some r
    → (q : InstanceRecord) × (f q ≡ r)
unfolding update_record
update_record-lookup f id s r e = elim (Option-cases (lookup id s.records)) [
  | inl n ↦ absurd (cc (n, record_of_none f id s r n e))
  | inr (q, n) ↦
      let e' : some (f q) ≡ some r = rw (n, update_record, lookup-insert_self) at e in (q, cc e')
]

save_step-Checkpointed :
    (id step_key : String) (st : StepState) (s : Store)
    → is_completed_step st.status ≡ true
    → Checkpointed id step_key (clone_value st.result) (save_step id step_key st s)
unfolding save_step clone_step
save_step-Checkpointed id step_key st s done r e =
    let (q, made) = update_record-lookup _ id s r e in
    (
      clone_step st,
      rw (← made) (lookup-insert_self step_key _ _),
      done,
      clone_value-clone_value st.result,
    )

checkpoint-Keeps :
    (a : Attempt) (n : ℕ) (v : Value) (t : Tick)
    → Keeps a.deps.instance_id a.key (clone_value v) (checkpoint a n v t)
unfolding checkpoint save completed_state
checkpoint-Keeps a n v t =
    let fr =
      register_rollback_frame a.key a.seq (clone_value v) a.options
        (save a (completed_state a n v t) t) in
    rw (fr.0, fr.1)
      (rw (clone_value-clone_value v) at (
        save_step-Checkpointed a.deps.instance_id (storage_key a.key t) (completed_state a n v t)
          t.store refl))

-- Rules for a chain, a branch and a round.
pub resume-Good {ℓ} :
    {A : Type ℓ} (id key : String) (r : Result A) (f : A → Action Value) (t : Tick)
    → ((x : A) → r ≡ ok x → Good id key (f x t))
    → Good id key (resume r f t)
unfolding resume
resume-Good id key (ok x) f t h = h x refl
resume-Good id key (throws e) f t h = λ v eq. cc
resume-Good id key out_of_fuel f t h = λ v eq. cc

pub if_Good :
    (id key : String) (b : Bool) (x y : Result Value × Tick)
    → (b ≡ true → Good id key x)
    → (b ≡ false → Good id key y)
    → Good id key (if b then x else y)
if_Good id key true x y h k = h refl
if_Good id key false x y h k = k refl

after_failure-Good :
    (a : Attempt) (n : ℕ) (again : Action Value) (e : Thrown) (t : Tick)
    → ((u : Tick) → Good a.deps.instance_id a.key (again u))
    → Good a.deps.instance_id a.key (after_failure a n again e t)
unfolding after_failure
after_failure-Good a n again e t h =
    resume-Good _ _ _ _ _ (λ d e1. resume-Good _ _ _ _ _ (λ w e2. h _))

end_round-Good :
    (a : Attempt) (n : ℕ) (again : Action Value) (o : Outcome) (t : Tick)
    → ((u : Tick) → Good a.deps.instance_id a.key (again u))
    → Good a.deps.instance_id a.key (end_round a n again (end_of o) t)
unfolding end_round
end_round-Good a n again (returned w) t h =
    λ v e. let same : clone_value w ≡ v = cc e in rw (← same) (checkpoint-Keeps a n w t)
end_round-Good a n again (raised x) t h = after_failure-Good a n again x t h

pub attempt_loop-Good :
    (a : Attempt) (fn : Body) (fuel n : ℕ) (t : Tick)
    → Good a.deps.instance_id a.key (attempt_loop a fn fuel n t)
unfolding attempt_loop attempt_round run_body
attempt_loop-Good a fn zero n t = λ v e. cc
attempt_loop-Good a fn (suc fuel) n t =
    end_round-Good a n _ (fn n).outcome _ (λ u. attempt_loop-Good a fn fuel (n + 1) u)
