-- ===== src/Tests.antt =====
-- The theorems at concrete inputs: a store with one instance, a few steps and a lock.
pub mod Steps
pub mod Locks
pub mod Policy
pub mod Deliveries
pub mod Stores
pub mod Texts
pub mod Actions
pub mod Jobs
pub mod Logs
pub mod Alerts
use bullmq_durable.Reaper.Alive.{pass-lookup}
use bullmq_durable.Reaper.{Answers, JobsExist, Reaper, pass}
use bullmq_durable.Inspect.View.{coarse, derive_view-coarse, is_due}
use bullmq_durable.Inspect.{
  DerivedStatus, derive_view, first_of, sleep_wake_at, view_of, view_sleeping, view_yielded,
}
use bullmq_durable.Runtime.Run.{
  after_acquire, after_processor, begun, catching, complete_result, deliver, finish, outcome_of,
  proceed, run, run_locked, suspend,
}
use bullmq_durable.Runtime.Rollbacks.{
  after_rollback, insert_rollback, roll_back, roll_back_registered, run_rollbacks, sort_rollbacks,
}
use bullmq_durable.Runtime.Processor.{run_program}
use bullmq_durable.Runtime.Order.{Descends, run_rollbacks-reported}
use bullmq_durable.Runtime.Locked.{Frees, Replays, run-Frees, run-Replays, run-contended}
use bullmq_durable.Runtime.Ends.{run-Ends}
use bullmq_durable.Runtime.Completed.{Completed, run-Completed}
use mathlib.Core.List.{Perm}
use bullmq_durable.Runtime.{
  Params, Program, RuntimeJob, fresh_tick, lock_contention_retry_ms, returns, step_then, RunOutcome,
}
use bullmq_durable.Value.Clone.{clone_value-clone_value}
use bullmq_durable.Store.Steps.{add_step, begin_absent, begin_record, begin_step, save_step}
use bullmq_durable.Store.Mutex.{
  LockCall, NoneGranted, acquire_lock_excludes, acquires, releases, renews, run_calls,
}
use bullmq_durable.Store.Locks.{acquire_lock}
use bullmq_durable.Store.Instances.{
  cancel_instance, get_instance, begin_tick, complete_instance, init_instance, terminal_transition,
  fenced_out, held_by_other,
}
use bullmq_durable.Retry.Bounds.{AtMostOne, compute_backoff_mono, compute_backoff_bounds}
use bullmq_durable.Retry.{
  first_duration, fixed, merge_retry, normalize_backoff, ResolvedRetry, RetryOptions, cap_of,
  compute_backoff, exponential, full_delay, resolve_retry,
}
use bullmq_durable.Result.{Ends, ok}
use bullmq_durable.Phase.{storage_key_for_phase}
use bullmq_durable.Executor.Sleep.{sleep_for}
use bullmq_durable.Executor.Checkpoint.{Keeps}
use bullmq_durable.Executor.Keeps.{execute-Keeps}
use bullmq_durable.Executor.Replay.{Replayed, execute-execute}
use bullmq_durable.Executor.Invoked.{OneBody, ReadOnly, execute-OneBody, settlement-ReadOnly}
use bullmq_durable.Executor.Fuel.{execute-Ends}
use bullmq_durable.Executor.Failed.{Refails, execute-Refails}
use bullmq_durable.Executor.Early.{Suspends, execute_early, sleep_for_early}
use bullmq_durable.Executor.Attempt.{
  attempt_loop, attempt_round, checkpoint, end_round, register_rollback, save,
}
use bullmq_durable.Duration.Parse.{parse_duration-ok}
use bullmq_durable.Duration.{DurationInput, Fraction, is_duration_like, parse_duration}
use bullmq_durable.Store.Fence.{
  settle_call, cancels, completes, get_status, get_status-settle_call, settle_call-Holds, Holds,
}
use bullmq_durable.Store.Begin.{Has}
use bullmq_durable.Store.{clone_instance, update_record, InstanceRecord, Store}
use bullmq_durable.Errors.{error, Thrown}
use bullmq_durable.Base.{
  is_some, ◌=s=◌, eq_iff, map, List, ◌*◌, ◌/◌, ◌≤◌, arith, ◌≢◌, ℕ, refl, some, none, [], ◌∷◌,
  String, true, false, ◌≡◌,
}
use bullmq_durable.Value.{nil, cons, arr, undefined, clone_value, num, null}
use bullmq_durable.Types.{
  compensation, is_cancelled_status, InstanceStatus, StepState, StepStatus, StepType, main, step,
}
use bullmq_durable.Executor.Step.{
  begin_from, begin_or_replay, execute_writable_step, run_from, step_init, execute,
}
use bullmq_durable.Executor.{
  RegisteredRollback, RunMode, resume, run_body, Body, Deps, StepOptions, Tick, normal, returned,
  raised,
}
use bullmq_durable.Base.Dict.{lookup, insert}

abbrev pub deps : Deps
deps = record {
  instance_id = "i";
  mode = normal;
  default_retry = none;
  random = λ n. record { num = 0; den = 0 };
}

abbrev pub settling : Deps
settling = record deps { mode = RunMode.settle }

abbrev pub no_options : StepOptions
no_options = record { retry = none; on_rollback = none }

abbrev pub seven : Body
seven n = record { took = 5; meanwhile = λ s. s; outcome = returned (num 7) }

abbrev pub failing : Body
failing n = record { took = 5; meanwhile = λ s. s; outcome = raised (Thrown.text "down") }

abbrev blank : StepState
blank = record {
  key = "a";
  type = step;
  phase = some main;
  seq = some 1;
  status = StepStatus.completed;
  result = num 3;
  error = none;
  attempts = 1;
  started_at = some 1;
  completed_at = some 2;
  failed_at = none;
  next_run_at = none;
}

abbrev pub waiting : StepState
waiting = record blank { key = "b"; status = StepStatus.running; next_run_at = some 50 }

abbrev pub asleep : StepState
asleep = record blank {
  key = "c";
  type = StepType.sleep;
  status = StepStatus.sleeping;
  next_run_at = some 50;
}

abbrev pub broken : StepState
broken = record blank {
  key = "f";
  status = StepStatus.failed;
  error = some (record { name = "Error"; message = "down"; code = none });
}

abbrev pub live : InstanceRecord
live = record {
  instance = record {
    id = "i";
    queue_name = "q";
    job_name = "j";
    original_job_id = "1";
    status = InstanceStatus.running;
    input = null;
    output = undefined;
    error = none;
    failure_error = none;
    failed_step = none;
    compensation = none;
    run_count = 1;
    resume_seq = none;
    step_seq = some 4;
    created_at = 0;
    updated_at = 0;
    completed_at = none;
    failed_at = none;
  };
  steps = ("a", blank) ∷ ("b", waiting) ∷ ("c", asleep) ∷ ("f", broken) ∷ [];
  terminal_at = none;
}

abbrev pub finished : InstanceRecord
finished = record live {
  instance = record live.instance { status = InstanceStatus.completed; output = num 9 };
}

abbrev pub store : Store
store = record {
  records = ("i", live) ∷ ("z", finished) ∷ [];
  locks = ("i", record { token = "w1"; expires_at = 100 }) ∷ [];
  registered_queues = [];
}

abbrev pub tick : Tick
tick = record {
  store = store;
  now = 10;
  active_phase = main;
  rollbacks = [];
  failed_step_key = none;
  pending_resume = none;
  events = [];
  draws = 0;
  invoked = [];
}

abbrev pub later : Tick
later = record tick { now = 60 }

pub w1_ne_w2 : ◌≢◌ {A = String} "w1" "w2"
w1_ne_w2 e = let same : false ≡ true = (eq_iff "w1" "w2").1 e in cc

pub w2_full : ◌≢◌ {A = String} "w2" ""
w2_full e = let same : false ≡ true = (eq_iff "w2" "").1 e in cc

pub holds : Holds "i" "w1" 10 store
unfolding lookup
holds = record {
  lock = record { token = "w1"; expires_at = 100 };
  found = refl;
  owned = refl;
  live = omega arith;
}

a_Has : Has "i" "a" store blank
unfolding lookup
a_Has = record { owner = live; known = refl; live = refl; held = refl }

pub b_Has : Has "i" "b" store waiting
unfolding lookup
b_Has = record { owner = live; known = refl; live = refl; held = refl }

pub c_Has : Has "i" "c" store asleep
unfolding lookup
c_Has = record { owner = live; known = refl; live = refl; held = refl }

pub f_Has : Has "i" "f" store broken
unfolding lookup
f_Has = record { owner = live; known = refl; live = refl; held = refl }
