-- ===== src/Executor/Failed.antt =====
-- A failed step is settled: its error comes back, and its body is not run again.
use bullmq_durable.Executor.Step.{
  execute, is_settlement_main_replay, replay_from, replay_settlement_main_step, begin_by_status,
  begin_from, begin_or_replay, execute_writable_step, replayed_error, step_init, storage_key,
}
use bullmq_durable.Store.Steps.{clone_found, find_step, get_step}
use bullmq_durable.Errors.Marking.{
  is_step_failure-deserialize_error, serialize_error-deserialize_error,
  serialize_error-mark_step_failure,
}
use bullmq_durable.Types.{failed, StepState, is_main}
use bullmq_durable.Store.Begin.{Has, begin_step-Has}
use bullmq_durable.Store.{clone_step}
use bullmq_durable.Result.{Result, throws}
use bullmq_durable.Executor.{Value, Body, Deps, StepOptions, Tick, resume}
use bullmq_durable.Errors.{
  deserialize_error, SerializedError, Thrown, is_step_failure, serialize_error,
}
use bullmq_durable.Base.{◌∙◌, Bool, String, arith, false, if◌then◌else◌, some, true, ◌≡◌, refl}

-- The error that a failed step replays: its stored error, marked as a step failure.
pub record Refails (x : Result Value × Tick) (key : String) (st : StepState) (t : Tick)
    : Type 0 where
  pub thrown : Thrown
  pub fails : x.0 ≡ throws thrown
  pub marked : is_step_failure thrown ≡ true
  pub stored : (s : SerializedError) → st.error ≡ some s → serialize_error thrown ≡ s
  pub named : is_main t.active_phase ≡ true → x.1.failed_step_key ≡ some key
  pub unwritten : x.1.store ≡ t.store
  pub unrun : x.1.invoked ≡ t.invoked

replayed_error-stored :
    (key : String) (st : StepState) (s : SerializedError)
    → st.error ≡ some s
    → serialize_error (replayed_error key (clone_step st)) ≡ s
unfolding replayed_error clone_step
replayed_error-stored key st s e =
    rw (e) (
      serialize_error-mark_step_failure (deserialize_error s) ∙ serialize_error-deserialize_error s)

replayed_error-marked :
    (key : String) (st : StepState) → is_step_failure (replayed_error key st) ≡ true
unfolding replayed_error
replayed_error-marked key st = is_step_failure-deserialize_error _

Refails-if :
    (b : Bool) (x y : Result Value × Tick) (key : String) (st : StepState) (t : Tick)
    → Refails x key st t
    → Refails y key st t
    → Refails (if b then x else y) key st t
Refails-if true x y key st t h k = h
Refails-if false x y key st t h k = k

writable-Refails :
    (d : Deps) (key : String) (o : StepOptions) (fn : Body) (t : Tick) (st : StepState)
    → Has d.instance_id (storage_key key t) t.store st
    → st.status ≡ failed
    → Refails (execute_writable_step d key o fn t) key st t
unfolding execute_writable_step begin_or_replay begin_from begin_by_status clone_step resume
writable-Refails d key o fn t st h f =
    rw (begin_step-Has _ _ (step_init key t) _ st h, begin_from, f, begin_by_status)
      (record {
        thrown = replayed_error key (clone_step st);
        fails = refl;
        marked = replayed_error-marked key (clone_step st);
        stored = replayed_error-stored key st;
        named = λ m. ground (arith, m);
        unwritten = refl;
        unrun = refl;
      })

replay-Refails :
    (d : Deps) (key : String) (o : StepOptions) (t : Tick) (st : StepState)
    → Has d.instance_id (storage_key key t) t.store st
    → st.status ≡ failed
    → Refails (replay_settlement_main_step d key o t) key st t
unfolding replay_settlement_main_step get_step find_step clone_found replay_from clone_step
    replayed_error
replay-Refails d key o t st h f =
    rw (h.known, find_step, h.held, clone_found, f)
      (record {
        thrown = replayed_error key (clone_step st);
        fails = refl;
        marked = replayed_error-marked key (clone_step st);
        stored = replayed_error-stored key st;
        named = λ m. refl;
        unwritten = refl;
        unrun = refl;
      })

-- A step that is stored as failed fails again at every call, in either mode, with any options and
-- any body: it throws an error with what was stored of the original one, marked as a step failure,
-- names the step as the one that failed if it is of the main phase, writes nothing to the store and
-- runs no body.
pub execute-Refails :
    (d : Deps) (key : String) (o : StepOptions) (fn : Body) (t : Tick) (st : StepState)
    → Has d.instance_id (storage_key key t) t.store st
    → st.status ≡ failed
    → Refails (execute d key o fn t) key st t
unfolding execute
execute-Refails d key o fn t st h f =
    Refails-if (is_settlement_main_replay d t) _ _ key st t (replay-Refails d key o t st h f)
      (writable-Refails d key o fn t st h f)
