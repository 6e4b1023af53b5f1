-- ===== src/Executor/Replay.antt =====
-- A completed step is replayed: its value comes back, and its body is not run again.
use bullmq_durable.Executor.Keeps.{execute-Keeps}
use bullmq_durable.Executor.Checkpoint.{register_rollback_frame}
use bullmq_durable.Base.{
  ap, or_else, Bool, if◌then◌else◌, false, some, true, String, ◌≡◌, ◌∙◌, arith,
}
use bullmq_durable.Store.Steps.{
  clone_found, get_step, find_step, begin_record, begin_absent, begin_step,
}
use bullmq_durable.Executor.Step.{
  replay_from, replay_settlement_main_step, is_settlement_main_replay, begin_or_replay,
  execute_writable_step, begin_by_status, run_from, begin_from, storage_key, execute,
}
use bullmq_durable.Phase.{storage_key_for_phase}
use bullmq_durable.Base.Dict.{lookup}
use bullmq_durable.Store.{InstanceRecord, clone_step}
use bullmq_durable.Result.{Result, ok}
use bullmq_durable.Value.{Value, clone_value}
use bullmq_durable.Types.{StepStatus, completed, is_cancelled_status, StepState, is_completed_step}
use bullmq_durable.Executor.{Body, resume, StepOptions, Deps, Tick}

completed_of : (x : StepStatus) → is_completed_step x ≡ true → x ≡ completed
completed_of x h = ground arith

-- The step is replayed: its value, no write, no body.
abbrev pub Replayed : Result Value × Tick → Value → Tick → Type 0
Replayed x v t = (x.0 ≡ ok v) × (x.1.store ≡ t.store) × (x.1.invoked ≡ t.invoked)

writable_replays :
    (d : Deps) (key : String) (o : StepOptions) (fn : Body) (t : Tick) (v : Value)
    (r : InstanceRecord) (x : StepState)
    → lookup d.instance_id t.store.records ≡ some r
    → is_cancelled_status r.instance.status ≡ false
    → lookup (storage_key key t) r.steps ≡ some x
    → is_completed_step x.status ≡ true
    → clone_value x.result ≡ v
    → Replayed (execute_writable_step d key o fn t) v t
unfolding execute_writable_step begin_or_replay begin_step begin_record begin_absent begin_from
    begin_by_status resume run_from clone_step
writable_replays d key o fn t v r x known live has done same =
    rw (known, begin_record, live, has, begin_absent, completed_of x.status done, begin_by_status)
      (let fr = register_rollback_frame key (or_else x.seq 0) (clone_value x.result) o t in
        (ap ok same, fr.0, fr.2))

replay_replays :
    (d : Deps) (key : String) (o : StepOptions) (t : Tick) (v : Value) (r : InstanceRecord)
    (x : StepState)
    → lookup d.instance_id t.store.records ≡ some r
    → lookup (storage_key key t) r.steps ≡ some x
    → is_completed_step x.status ≡ true
    → clone_value x.result ≡ v
    → Replayed (replay_settlement_main_step d key o t) v t
unfolding replay_settlement_main_step get_step find_step clone_found replay_from clone_step
replay_replays d key o t v r x known has done same =
    rw (known, find_step, has, clone_found, done)
      (let fr = register_rollback_frame key (or_else x.seq 0) (clone_value x.result) o t in
        (ap ok same, fr.0, fr.2))

Replayed-if :
    (b : Bool) (x y : Result Value × Tick) (v : Value) (t : Tick)
    → Replayed x v t
    → Replayed y v t
    → Replayed (if b then x else y) v t
Replayed-if true x y v t h k = h
Replayed-if false x y v t h k = k

checkpoint_replays :
    (d : Deps) (key : String) (o : StepOptions) (fn : Body) (t : Tick) (v : Value)
    (r : InstanceRecord) (x : StepState)
    → lookup d.instance_id t.store.records ≡ some r
    → lookup (storage_key key t) r.steps ≡ some x
    → is_cancelled_status r.instance.status ≡ false
    → is_completed_step x.status ≡ true
    → clone_value x.result ≡ v
    → Replayed (execute d key o fn t) v t
unfolding execute
checkpoint_replays d key o fn t v r x known has live done same =
    Replayed-if (is_settlement_main_replay d t) _ _ v t
      (replay_replays d key o t v r x known has done same)
      (writable_replays d key o fn t v r x known live has done same)

-- Once `ctx.step` has returned a value, every later call for the same step in the same phase, in
-- either mode, with any options and any body, returns that value, leaves the store as it is and runs
-- no body: as long as the store then knows the instance, has the step as that call left it, and the
-- instance is not cancelled. Whatever else was written to the store meanwhile is free.
pub execute-execute :
    (d d' : Deps) (key : String) (o o' : StepOptions) (fn fn' : Body) (t t' : Tick) (v : Value)
    (q r : InstanceRecord)
    → (execute d key o fn t).0 ≡ ok v
    → t'.active_phase ≡ (execute d key o fn t).1.active_phase
    → lookup d.instance_id (execute d key o fn t).1.store.records ≡ some q
    → lookup d'.instance_id t'.store.records ≡ some r
    → lookup (storage_key key t') r.steps ≡ lookup (storage_key key t') q.steps
    → is_cancelled_status r.instance.status ≡ false
    → Replayed (execute d' key o' fn' t') v t'
execute-execute d d' key o o' fn fn' t t' v q r done same_phase left known same_step live =
    let (x, has, done', same) = execute-Keeps d key o fn t v done q left in
    checkpoint_replays d' key o' fn' t' v r x known
      (same_step ∙ (ap (λ ph. lookup (storage_key_for_phase ph key) q.steps) same_phase ∙ has)) live
      done' same
