-- ===== src/Worker.antt =====
-- worker.ts: the handling of a job, what the worker hands back to BullMQ, and the settlement of a
-- job that failed outside its processor. The handler that is found for a job is an argument; the
-- reaper's kick is left out.
pub mod Handled
use bullmq_durable.Runtime.Rollbacks.{default_rollback_retry}
use bullmq_durable.Retry.{RetryOptions}
use bullmq_durable.Result.{Result, ok, out_of_fuel, throws}
use bullmq_durable.Phase.{create_instance_id}
use bullmq_durable.Envelope.{DurableMeta, unwrap_resume_data}
use bullmq_durable.Duration.{Fraction}
use bullmq_durable.Base.{
  coalesce, ℕ, String, Bool, not, ◌&&◌, ◌||◌, Option, none, some, ltb, if◌then◌else◌, or_else,
}
use bullmq_durable.Value.{Value}
use bullmq_durable.Errors.{Thrown, error, text, other, named_unrecoverable}
use bullmq_durable.Types.{InstanceState, is_terminal}
use bullmq_durable.Store.{Store}
use bullmq_durable.Store.Instances.{get_instance}
use bullmq_durable.Executor.{RunMode}
use bullmq_durable.Runtime.{
  FailureInfo, Params, Program, RunOutcome, RuntimeJob, completed, suspended, retriable, failed,
  cancelled, attempts_total,
}
use bullmq_durable.Runtime.Run.{Delivery, run}

-- What the processor wrapper ends in: it returns a value, or it throws `DelayedError`, the error
-- itself, `DurableTerminalJobError` or `DurableCancelledJobError`.
pub data JobResult : Type 0 where
  returns : Value → JobResult
  delayed_error : JobResult
  rethrows : Thrown → JobResult
  terminal_job_error : String → Thrown → JobResult
  cancelled_job_error : String → JobResult

-- `errorMessage`.
unfoldable pub error_message : Thrown → String
error_message (error e) = e.message
error_message (text s) = s
error_message (other shown object marked) = "durable run failed"

-- `runOutcomeToReturn`.
unfoldable pub run_outcome_to_return : RunOutcome → String → JobResult
run_outcome_to_return (completed output) id = returns output
run_outcome_to_return suspended id = delayed_error
run_outcome_to_return (retriable e) id = rethrows e
run_outcome_to_return (failed e) id = terminal_job_error (error_message e) e
run_outcome_to_return cancelled id = cancelled_job_error id

abbrev made : Option RuntimeJob → ℕ
made none = 0
made (some j) = or_else j.attempts_made 0

-- Whether the failed job is BullMQ's to deliver again.
abbrev pub redelivered : Params → Thrown → Bool
redelivered p e = not (named_unrecoverable e) && ltb (made p.job) (attempts_total p)

unfoldable pub settle_instance :
    Params → String → Thrown → Program → ℕ → Store → Option InstanceState → Option Delivery
settle_instance p token e processor now s none = none
settle_instance p token e processor now s (some i) =
    if is_terminal i.status || redelivered p e
    then none
    else some
        (run (record p { mode = RunMode.settle; settle_error = some e }) token processor now s)

-- `settleOrphanedFailure`: `none` if nothing is run. `boundary` is whether the error is one of the
-- runtime's own boundary errors.
unfoldable pub settle_orphaned_failure :
    Params → String → Bool → Thrown → Program → ℕ → Store → Option Delivery
settle_orphaned_failure p token boundary e processor now s =
    if boundary
    then none
    else settle_instance p token e processor now s (get_instance p.instance_id s)

-- A BullMQ job, as far as `handleJob` reads it.
pub record WorkerJob : Type 0 where
  pub id : String
  pub name : String
  pub data_of : Value
  pub job : RuntimeJob

-- What `resolveDurableHandler` finds for a job: its processor, and the options that stand for it.
pub record WorkerHandler : Type 0 where
  pub processor : Value → Program
  pub on_failure : Option (FailureInfo → Program)

pub record WorkerOptions : Type 0 where
  pub queue_name : String
  pub default_retry : Option RetryOptions
  pub default_rollback_retry : Option RetryOptions
  pub on_failure : Option (FailureInfo → Program)
  pub random : ℕ → Fraction

-- The instance id and the job id of the run: those of a 0.1.x envelope, if there is one.
unfoldable pub identity_of : String → String → Option DurableMeta → String × String
identity_of queue_name job_id none = (create_instance_id queue_name job_id, job_id)
identity_of queue_name job_id (some m) = (m.instance_id, m.original_job_id)

unfoldable pub params_of : WorkerOptions → WorkerHandler → WorkerJob → Params
params_of o h j =
    let (meta, payload) = unwrap_resume_data j.data_of in
    let (instance_id, original_job_id) = identity_of o.queue_name j.id meta in
    record {
      instance_id = instance_id;
      queue_name = o.queue_name;
      job_name = j.name;
      job_data = payload;
      original_job_id = original_job_id;
      job = some j.job;
      default_retry = o.default_retry;
      default_rollback_retry = o.default_rollback_retry;
      on_failure = coalesce h.on_failure o.on_failure;
      mode = RunMode.normal;
      settle_error = none;
      random = o.random;
    }

unfoldable pub result_of : String → Result RunOutcome → Result JobResult
result_of id (ok outcome) = ok (run_outcome_to_return outcome id)
result_of id (throws e) = throws e
result_of id out_of_fuel = out_of_fuel

-- `handleJob`: the result, and the delivery that it comes from.
unfoldable pub handle_job :
    WorkerOptions → WorkerHandler → WorkerJob → String → ℕ → Store → Result JobResult × Delivery
unfolding result_of
handle_job o h j token now s =
    let p = params_of o h j in
    let delivery = run p token (h.processor p.job_data) now s in
    (result_of p.instance_id delivery.outcome, delivery)
