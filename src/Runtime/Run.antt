-- ===== src/Runtime/Run.antt =====
-- One tick from the lock to the outcome (execution/runtime.ts): `execute`, `runLocked`, `run`,
-- `suspend`.
use bullmq_durable.Base.{
  ℕ, ◌+◌, String, Bool, true, false, not, ◌&&◌, ◌||◌, Option, none, some, ltb, if◌then◌else◌,
  is_some,
}
use bullmq_durable.Value.{Value}
use bullmq_durable.Errors.{
  Thrown, plain_error, deserialize_error, is_yield, is_cancelled, is_settle_incomplete,
  is_step_failure, is_unrecoverable, named_unrecoverable, is_non_retryable, SerializedError,
}
use bullmq_durable.Types.{InstanceState, InstanceStatus, is_compensating}
use bullmq_durable.Result.{Result, ok, throws, out_of_fuel}
use bullmq_durable.Store.{Store}
use bullmq_durable.Store.Instances.{
  InitInstanceInput, init_instance, no_patch, complete_instance, fail_instance,
}
use bullmq_durable.Store.Locks.{acquire_lock, release_lock}
use bullmq_durable.Executor.{resume, Tick, Action, is_settle, store_does}
use bullmq_durable.Runtime.{
  Params, Program, RuntimeJob, RunOutcome, TickResult, ended, yield_pending, completed, suspended,
  retriable, failed, cancelled, deps_of, fresh_tick, job_attempt, attempts_total, discarded_of,
  lock_ttl_ms, lock_contention_retry_ms,
}
use bullmq_durable.Runtime.Processor.{run_program}
use bullmq_durable.Runtime.Failure.{
  patch, yield_with, cancel, settle_trigger, run_failure_sequence, is_empty,
}

unfoldable pub complete_result : Value → Bool × Store → Action TickResult
complete_result output (true, s) t = (ok (ended (completed output)), record t { store = s })
complete_result output (false, s) t = (ok (ended suspended), record t { store = s })

-- The processor returned: the run completes, unless the tick began in compensation.
unfoldable pub finish : Params → String → Bool → Value → Action TickResult
finish p token true output t = run_failure_sequence p token (settle_trigger p none) t
finish p token false output t =
    complete_result output (complete_instance p.instance_id output (some token) t.now t.store) t

-- `unrecoverable`.
abbrev pub unrecoverable : Params → Thrown → Bool
unrecoverable p e =
    is_unrecoverable e || (named_unrecoverable e || (is_non_retryable e || discarded_of p.job))

-- Whether the error is left to BullMQ's attempts.
abbrev pub leaves_to_bullmq : Params → Thrown → Bool
leaves_to_bullmq p e =
    not (is_settle p.mode)
    && (not (is_step_failure e)
        && (not (unrecoverable p e) && ltb (job_attempt p) (attempts_total p)))

abbrev yielded_patch : Params → Tick → Tick
yielded_patch p t = patch p (record no_patch { status = some InstanceStatus.yielded }) t

abbrev patch_failed_step : Params → Tick → Tick
patch_failed_step p t =
    if is_some t.failed_step_key
    then patch p (record no_patch { failed_step = t.failed_step_key }) t
    else t

-- The fast path: neither a compensation nor a handler.
unfoldable pub fail_fast : Params → String → Thrown → Action TickResult
fail_fast p token e t = (
  ok (ended (failed e)),
  store_does (λ s. (fail_instance p.instance_id e (some token) t.now s).1) (patch_failed_step p t),
)

-- The `catch` of `execute`.
unfoldable pub caught : Params → String → Bool → Thrown → Action TickResult
caught p token entered e t =
    if is_yield e
    then yield_with "yield" (yielded_patch p t)
    else if is_cancelled e
    then cancel p token t
    else if is_settle_incomplete e
    then run_failure_sequence p token (settle_trigger p none) t
    else if entered
    then run_failure_sequence p token (settle_trigger p (some e)) t
    else if leaves_to_bullmq p e
    then (ok (ended (retriable e)), yielded_patch p t)
    else if is_empty t.rollbacks && not (is_some p.on_failure)
    then fail_fast p token e t
    else run_failure_sequence p token e t

-- The `try` block: `finish` follows the processor, and `caught` takes what either throws.
unfoldable pub catching :
    Params → String → Bool → Result TickResult × Tick → Result TickResult × Tick
catching p token entered (ok r, t) = (ok r, t)
catching p token entered (throws e, t) = caught p token entered e t
catching p token entered (out_of_fuel, t) = (out_of_fuel, t)

unfoldable pub after_processor : Params → String → Bool → Result Value → Action TickResult
after_processor p token entered (ok output) t =
    catching p token entered (finish p token entered output t)
after_processor p token entered (throws e) t = caught p token entered e t
after_processor p token entered out_of_fuel t = (out_of_fuel, t)

-- `execute`.
unfoldable pub execute : Params → String → Bool → Program → Action TickResult
execute p token entered processor t =
    let (r, u) = run_program (deps_of p) processor t in after_processor p token entered r u

unfoldable pub stored_error : Option SerializedError → Thrown
stored_error none = plain_error "Instance failed"
stored_error (some e) = deserialize_error e

unfoldable pub outcome_of : InstanceStatus → InstanceState → Option RunOutcome
outcome_of InstanceStatus.completed i = some (completed i.output)
outcome_of InstanceStatus.failed i = some (failed (stored_error i.error))
outcome_of InstanceStatus.compensation_failed i = some (failed (stored_error i.error))
outcome_of InstanceStatus.cancelled i = some cancelled
outcome_of _ i = none

-- The outcome that a finished instance replays.
abbrev pub stored_outcome : InstanceState → Option RunOutcome
stored_outcome i = outcome_of i.status i

unfoldable pub proceed :
    Params → String → Program → InstanceState → Option RunOutcome → Action TickResult
proceed p token processor i (some outcome) t = (ok (ended outcome), t)
proceed p token processor i none t = execute p token (is_compensating i.status) processor t

abbrev pub init_input : Params → InitInstanceInput
init_input p = record {
  instance_id = p.instance_id;
  queue_name = p.queue_name;
  job_name = p.job_name;
  job_id = p.original_job_id;
  input = p.job_data;
}

unfoldable pub begun :
    Params → String → Program → Tick → InstanceState × Store → Result TickResult × Tick
begun p token processor t (i, s) =
    proceed p token processor i (stored_outcome i) (record t { store = s })

-- `runLocked`.
unfoldable pub run_locked : Params → String → Program → Action TickResult
run_locked p token processor t =
    begun p token processor t (init_instance (init_input p) t.now t.store)

-- What a delivery of the job ends in: its outcome, the due time that was handed to
-- `moveToDelayed`, if it was called, and the state left behind.
pub record Delivery : Type 0 where
  pub outcome : Result RunOutcome
  pub moved_to : Option ℕ
  pub tick : Tick

abbrev pub can_move : Option RuntimeJob → Bool
can_move none = false
can_move (some j) = j.can_move

-- `suspend`. A rejected `moveToDelayed` changes nothing in the outcome.
unfoldable pub suspend : Params → ℕ → Tick → Delivery
suspend p delay_ms t = record {
  outcome = ok suspended;
  moved_to = if can_move p.job then some (t.now + delay_ms) else none;
  tick = t;
}

-- What follows the release of the lock.
unfoldable pub deliver : Params → Result TickResult → Tick → Delivery
deliver p (ok (ended outcome)) t = record { outcome = ok outcome; moved_to = none; tick = t }
deliver p (ok (yield_pending resume)) t = suspend p resume.delay_ms t
deliver p (throws e) t = record { outcome = throws e; moved_to = none; tick = t }
deliver p out_of_fuel t = record { outcome = out_of_fuel; moved_to = none; tick = t }

unfoldable pub after_acquire : Params → String → Program → Tick → Bool × Store → Delivery
after_acquire p token processor t (false, s) =
    suspend p lock_contention_retry_ms (record t { store = s })
after_acquire p token processor t (true, s) =
    let (r, u) = run_locked p token processor (record t { store = s }) in
    deliver p r (store_does (release_lock p.instance_id token) u)

-- `run`: one delivery of the job, at the time `now`.
unfoldable pub run : Params → String → Program → ℕ → Store → Delivery
run p token processor now s =
    after_acquire p token processor (fresh_tick now s)
      (acquire_lock p.instance_id token lock_ttl_ms now s)
