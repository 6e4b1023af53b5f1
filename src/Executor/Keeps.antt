-- ===== src/Executor/Keeps.antt =====
-- Whatever `ctx.step` returns is the checkpoint that the store then holds, if the store still knows
-- the instance.
use bullmq_durable.Executor.Checkpoint.{
  Good, Keeps, attempt_loop-Good, if_Good, register_rollback_frame, resume-Good,
}
use bullmq_durable.Base.{
  ◌∙◌, ap, Bool-cases, Option, refl, or_else, ◌≢◌, inl, inr, none, some, true, String, ℕ, ◌≡◌,
  arith,
}
use bullmq_durable.Store.Steps.{
  clone_found, get_step, find_step, BeginStepInit, begin_record, begin_absent, begin_step,
  BeginStepResult, missing, cancelled, created, existing,
}
use bullmq_durable.Executor.Attempt.{register_rollback}
use bullmq_durable.Executor.Step.{
  replay_from, replay_settlement_main_step, is_settlement_main_replay, attempt_fuel,
  begin_or_replay, attempt_of, step_init, execute_writable_step, begin_by_status, WritableBegin,
  run_from, attempt, take_over, replayed, begin_from, storage_key, execute,
}
use bullmq_durable.Base.Dict.{lookup}
use bullmq_durable.Store.{Store, InstanceRecord, clone_step}
use bullmq_durable.Result.{throws, out_of_fuel, Result, ok}
use bullmq_durable.Value.{Value, clone_value}
use bullmq_durable.Types.{
  StepStatus, completed, failed, is_cancelled_status, StepState, is_completed_step,
}
use bullmq_durable.Executor.{Body, resume, StepOptions, Deps, Tick}

attempt_not_replayed :
    (d : Deps) (key : String) (o : StepOptions) (st : StepState) (now : ℕ) (r : Result (Unit {0}))
    (t : Tick) (v : Value)
    → (resume r (λ _. take_over d key o st now) t).0 ≢ ok (replayed v)
unfolding resume take_over
attempt_not_replayed d key o st now (ok x) t v e = cc
attempt_not_replayed d key o st now (throws x) t v e = cc
attempt_not_replayed d key o st now out_of_fuel t v e = cc

-- A step that is replayed was completed, and the call only registers its rollback.
status_replays :
    (d : Deps) (key : String) (o : StepOptions) (st : StepState) (x : StepStatus) (t : Tick)
    (v : Value)
    → (begin_by_status d key o st x t).0 ≡ ok (replayed v)
    → (is_completed_step x ≡ true)
      × (st.result ≡ v)
      × ((begin_by_status d key o st x t).1
          ≡ register_rollback key (or_else st.seq 0) st.result o t)
unfolding begin_by_status
status_replays d key o st completed t v e = (refl, cc e, refl)
status_replays d key o st failed t v e = cc
status_replays d key o st _ t v e = absurd (attempt_not_replayed d key o st t.now _ _ v e)

-- What the store holds when `beginStep` answers `existing`.
abbrev Stored : String → String → BeginStepResult → Tick → Type 0
Stored id key b t =
    (st : StepState)
    → b ≡ existing st
    → is_completed_step st.status ≡ true
    → Keeps id key st.result t

begin_replays :
    (d : Deps) (key : String) (o : StepOptions) (b : BeginStepResult) (t : Tick) (v : Value)
    → Stored d.instance_id key b t
    → (begin_from d key o b t).0 ≡ ok (replayed v)
    → Keeps d.instance_id key v (begin_from d key o b t).1
unfolding begin_from
begin_replays d key o missing t v h e = cc
begin_replays d key o cancelled t v h e = cc
begin_replays d key o (created seq) t v h e = cc
begin_replays d key o (existing st) t v h e =
    let (done, same, after) = status_replays d key o st st.status t v e in
    let fr = register_rollback_frame key (or_else st.seq 0) st.result o t in
    rw (after, fr.0, fr.1, ← same) (h st refl done)

run_from-Good :
    (d : Deps) (key : String) (o : StepOptions) (fn : Body) (b : WritableBegin) (t : Tick)
    → ((v : Value) → b ≡ replayed v → Keeps d.instance_id key v t)
    → Good d.instance_id key (run_from d key o fn b t)
unfolding run_from
run_from-Good d key o fn (replayed v) t h = λ w e. h w (cc e)
run_from-Good d key o fn (attempt n seq s) t h =
    attempt_loop-Good (attempt_of d key o seq s) fn (attempt_fuel d o) n t

begin_absent-existing :
    (id step_key : String) (init : BeginStepInit) (r : InstanceRecord) (o : Option StepState)
    (s : Store) (st : StepState)
    → (begin_absent id step_key init r o s).0 ≡ existing st
    → ((x : StepState) × (o ≡ some x) × (clone_step x ≡ st))
      × ((begin_absent id step_key init r o s).1 ≡ s)
unfolding begin_absent
begin_absent-existing id step_key init r none s st e = cc
begin_absent-existing id step_key init r (some x) s st e = ((x, refl, cc e), refl)

begin_record-existing :
    (id step_key : String) (init : BeginStepInit) (o : Option InstanceRecord) (s : Store)
    (st : StepState)
    → (begin_record id step_key init o s).0 ≡ existing st
    → ((r : InstanceRecord) × (x : StepState) × (o ≡ some r)
        × (lookup step_key r.steps ≡ some x)
        × (clone_step x ≡ st))
      × ((begin_record id step_key init o s).1 ≡ s)
unfolding begin_record
begin_record-existing id step_key init none s st e = cc
begin_record-existing id step_key init (some r) s st e =
    elim (Bool-cases (is_cancelled_status r.instance.status)) [
      | inl h ↦ absurd (ground (arith, h))
      | inr h ↦
          let e' = rw h at e in
          let ((x, there, same), kept) = begin_absent-existing id step_key init r _ s st e' in
          ((r, x, refl, there, same), rw h kept)
    ]

begin_step-Stored :
    (d : Deps) (key : String) (t : Tick)
    → Stored d.instance_id key
        (begin_step d.instance_id (storage_key key t) (step_init key t) t.store).0
        (record t {
          store = (begin_step d.instance_id (storage_key key t) (step_init key t) t.store).1;
        })
unfolding begin_step clone_step
begin_step-Stored d key t st e done r found =
    let ((q, x, known, has, same), kept) =
      begin_record-existing d.instance_id (storage_key key t) (step_init key t) _ t.store st e in
    let found' : lookup d.instance_id t.store.records ≡ some r = rw kept at found in
    let one : q ≡ r = cc (known, found') in
    (
      x,
      rw one at has,
      ap (λ (y : StepState). is_completed_step y.status) same ∙ done,
      ap (λ (y : StepState). y.result) same,
    )

writable-Good :
    (d : Deps) (key : String) (o : StepOptions) (fn : Body) (t : Tick)
    → Good d.instance_id key (execute_writable_step d key o fn t)
unfolding execute_writable_step begin_or_replay
writable-Good d key o fn t = resume-Good _ _ _ _ _ (λ b e.
    run_from-Good d key o fn b _
      (λ v same. begin_replays d key o _ _ v (begin_step-Stored d key t) (cc (e, same))))

find_step-lookup :
    (id step_key : String) (s : Store) (r : InstanceRecord) {x : StepState}
    → lookup id s.records ≡ some r
    → find_step id step_key s ≡ some x
    → lookup step_key r.steps ≡ some x
unfolding find_step
find_step-lookup id step_key s r known e = rw (known, find_step) at e

completed_good :
    (id key : String) (o : StepOptions) (x : StepState) (t : Tick)
    → find_step id (storage_key key t) t.store ≡ some x
    → (v : Value) → is_completed_step x.status ≡ true
    → (replay_from key o (some (clone_step x)) t).0 ≡ ok v
    → Keeps id key v (replay_from key o (some (clone_step x)) t).1
unfolding replay_from clone_step
completed_good id key o x t e v done h =
    let fr = register_rollback_frame key (or_else x.seq 0) (clone_value x.result) o t in
    rw (done, fr.0, fr.1)
      (λ r known. (x, find_step-lookup id _ t.store r known e, done, cc (done, h)))

found-Good :
    (id key : String) (o : StepOptions) (y : Option StepState) (t : Tick)
    → find_step id (storage_key key t) t.store ≡ y
    → Good id key (replay_from key o (clone_found y) t)
unfolding replay_from clone_found clone_step
found-Good id key o none t e v h = cc
found-Good id key o (some x) t e v h = elim (Bool-cases (is_completed_step x.status)) [
  | inl done ↦ completed_good id key o x t e v done h
  | inr not_done ↦ absurd (ground (arith, h))
]

get_step-Keeps :
    (id key : String) (o : StepOptions) (t : Tick)
    → Good id key (replay_from key o (get_step id (storage_key key t) t.store) t)
unfolding get_step
get_step-Keeps id key o t = found-Good id key o _ t refl

-- Whatever `ctx.step` returns is the checkpoint that the store then holds, if the store still knows
-- the instance.
pub execute-Keeps :
    (d : Deps) (key : String) (o : StepOptions) (fn : Body) (t : Tick) (v : Value)
    → (execute d key o fn t).0 ≡ ok v
    → Keeps d.instance_id key v (execute d key o fn t).1
unfolding execute replay_settlement_main_step
execute-Keeps d key o fn t =
    if_Good d.instance_id key (is_settlement_main_replay d t) _ _
      (λ h. get_step-Keeps d.instance_id key o t) (λ h. writable-Good d key o fn t)
