-- ===== src/Runtime.antt =====
-- execution/runtime.ts and execution/context.ts: one execution tick of an instance. `Processor` runs
-- the processor against the step executor, `Rollbacks` and `Failure` hold the terminal-failure
-- sequence, `Run` the tick from the lock to the outcome; the other children hold the theorems.
--
-- The renewal timer of the lock is not modelled: what it changes is left to the `meanwhile` of the
-- bodies. The store's calls do not fail, and the text of log entries is left out.
pub mod Processor
pub mod Rollbacks
pub mod Failure
pub mod Run
pub mod Order
pub mod Calls
pub mod Ends
pub mod Locked
pub mod Fails
pub mod Completed
pub mod Retriable
use bullmq_durable.Base.{List, ℕ, ◌+◌, String, Bool, Option, none, some, [], or_else}
use bullmq_durable.Value.{Value}
use bullmq_durable.Errors.{Thrown}
use bullmq_durable.Types.{main, CompensationReport}
use bullmq_durable.Duration.{Fraction, text}
use bullmq_durable.Retry.{RetryOptions, exponential, StepBackoff}
use bullmq_durable.Store.{Store}
use bullmq_durable.Executor.{Body, StepOptions, Outcome, Deps, Tick, RunMode, PendingResume}

-- What the user's processor does: it calls `ctx.step` or `ctx.sleep`, is handed what the call
-- returns or throws, and goes on; or it ends. A processor that catches an error goes on after
-- `raised`.
pub data Program : Type 0 where
  returns : Value → Program
  raises : Thrown → Program
  step_then : String → StepOptions → Body → (Outcome → Program) → Program
  sleep_then : String → ℕ → (Outcome → Program) → Program

-- `RunOutcome`.
pub data RunOutcome : Type 0 where
  completed : Value → RunOutcome
  suspended : RunOutcome
  retriable : Thrown → RunOutcome
  failed : Thrown → RunOutcome
  cancelled : RunOutcome

-- `TickResult`.
pub data TickResult : Type 0 where
  ended : RunOutcome → TickResult
  yield_pending : PendingResume → TickResult

-- `DurableRuntimeJob`: the fields that a tick reads, and whether the job has `moveToDelayed`.
pub record RuntimeJob : Type 0 where
  pub attempts_made : Option ℕ
  pub attempts : Option ℕ
  pub discarded : Bool
  pub can_move : Bool

-- `DurableFailureInfo`; the set of completed keys is the list that it is built from.
pub record FailureInfo : Type 0 where
  pub error : Thrown
  pub failed_step : Option String
  pub completed : List String
  pub compensation : CompensationReport

-- `DurableRuntimeParams`, less the store and the clock, and the draws of `Math.random`.
pub record Params : Type 0 where
  pub instance_id : String
  pub queue_name : String
  pub job_name : String
  pub job_data : Value
  pub original_job_id : String
  pub job : Option RuntimeJob
  pub default_retry : Option RetryOptions
  pub default_rollback_retry : Option RetryOptions
  pub on_failure : Option (FailureInfo → Program)
  pub mode : RunMode
  pub settle_error : Option Thrown
  pub random : ℕ → Fraction

-- `LOCK_TTL_MS`, `LOCK_CONTENTION_RETRY_MS`, `DEFAULT_RESUME_DELAY_MS`.
abbrev pub lock_ttl_ms : ℕ
lock_ttl_ms = 30000

abbrev pub lock_contention_retry_ms : ℕ
lock_contention_retry_ms = 5000

abbrev pub default_resume_delay_ms : ℕ
default_resume_delay_ms = 1000

-- `buildContext`: what the context hands its executor.
abbrev pub deps_of : Params → Deps
deps_of p = record {
  instance_id = p.instance_id;
  mode = p.mode;
  default_retry = p.default_retry;
  random = p.random;
}

-- The context of a new tick.
unfoldable pub fresh_tick : ℕ → Store → Tick
fresh_tick now s = record {
  store = s;
  now = now;
  active_phase = main;
  rollbacks = [];
  failed_step_key = none;
  pending_resume = none;
  events = [];
  draws = 0;
  invoked = [];
}

abbrev made_of : Option RuntimeJob → Option ℕ
made_of none = none
made_of (some j) = j.attempts_made

abbrev total_of : Option RuntimeJob → Option ℕ
total_of none = none
total_of (some j) = j.attempts

abbrev pub discarded_of : Option RuntimeJob → Bool
discarded_of none = Bool.false
discarded_of (some j) = j.discarded

-- `jobAttempt`, and `job?.opts?.attempts ?? 1`.
abbrev pub job_attempt : Params → ℕ
job_attempt p = or_else (made_of p.job) 0 + 1

abbrev pub attempts_total : Params → ℕ
attempts_total p = or_else (total_of p.job) 1
