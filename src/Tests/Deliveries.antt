-- ===== src/Tests/Deliveries.antt =====
-- The theorems on deliveries, the reaper and the derived view at concrete inputs.
use bullmq_durable.Runtime.Retriable.{run-retriable}
use bullmq_durable.Types.{InstanceStatus, StepStatus}
use bullmq_durable.Runtime.Run.{
  caught, fail_fast, unrecoverable, after_acquire, after_processor, begun, catching,
  complete_result, deliver, finish, outcome_of, proceed, run, run_locked, suspend,
}
use bullmq_durable.Executor.{normal, RegisteredRollback, resume, run_body, Tick}
use bullmq_durable.Tests.{
  waiting, asleep, finished, holds, live, no_options, seven, store, tick, w1_ne_w2,
}
use bullmq_durable.Reaper.Alive.{pass-lookup}
use bullmq_durable.Reaper.{Answers, JobsExist, Reaper, pass}
use bullmq_durable.Inspect.View.{coarse, derive_view-coarse, is_due}
use bullmq_durable.Inspect.{
  DerivedStatus, derive_view, first_of, sleep_wake_at, view_of, view_sleeping, view_yielded,
}
use bullmq_durable.Runtime.Rollbacks.{
  after_rollback, insert_rollback, roll_back, roll_back_registered, run_rollbacks, sort_rollbacks,
}
use bullmq_durable.Runtime.Processor.{run_program}
use bullmq_durable.Runtime.Order.{InOrder, run_rollbacks-reported, run_rollbacks-InOrder}
use bullmq_durable.Runtime.Locked.{Frees, Replays, run-Frees, run-Replays, run-contended}
use bullmq_durable.Runtime.Completed.{Completed, run-Completed}
use mathlib.Core.List.{Perm}
use bullmq_durable.Runtime.{
  attempts_total, ended, job_attempt, raises, Params, Program, RuntimeJob, fresh_tick,
  lock_contention_retry_ms, returns, step_then, RunOutcome,
}
use bullmq_durable.Store.Steps.{begin_absent, begin_record, begin_step}
use bullmq_durable.Store.Locks.{acquire_lock}
use bullmq_durable.Store.Instances.{
  fail_instance, cancel_instance, get_instance, begin_tick, complete_instance, init_instance,
  terminal_transition, fenced_out, held_by_other,
}
use bullmq_durable.Retry.{first_duration, merge_retry, normalize_backoff, resolve_retry}
use bullmq_durable.Result.{ok}
use bullmq_durable.Phase.{storage_key_for_phase, create_instance_id}
use bullmq_durable.Executor.Attempt.{attempt_loop, attempt_round, end_round}
use bullmq_durable.Duration.{parse_duration}
use bullmq_durable.Store.Fence.{completes, get_status, get_status-unfenced}
use bullmq_durable.Store.{clone_instance, Store}
use bullmq_durable.Errors.{is_step_failure, named_unrecoverable, Thrown}
use bullmq_durable.Base.{
  ◌<◌, is_some, ◌=s=◌, map, List, ℕ, refl, some, none, [], ◌∷◌, String, true, false, ◌≡◌,
}
use bullmq_durable.Value.{clone_value, num, null}
use bullmq_durable.Executor.Step.{
  begin_from, begin_or_replay, execute_writable_step, run_from, step_init, execute,
}
use bullmq_durable.Base.Dict.{lookup, insert}

z_known : lookup "z" store.records ≡ some finished
unfolding lookup
z_known = refl

abbrev job : RuntimeJob
job = record { attempts_made = some 0; attempts = some 3; discarded = false; can_move = true }

abbrev params : Params
params = record {
  instance_id = "i";
  queue_name = "q";
  job_name = "j";
  job_data = null;
  original_job_id = "1";
  job = some job;
  default_retry = none;
  default_rollback_retry = none;
  on_failure = none;
  mode = normal;
  settle_error = none;
  random = λ n. record { num = 0; den = 0 };
}

abbrev sum : Program
sum = step_then "a" no_options seven λ o. returns (num 4)

run-Frees_example : Frees "i" "w1" (run params "w1" sum 10 store).tick.store
run-Frees_example = run-Frees params "w1" sum 10 store

run-contended_example :
    let d = run params "w2" sum 10 store in
    (d.outcome ≡ ok RunOutcome.suspended)
    × (d.moved_to ≡ some 5010)
    × (d.tick.invoked ≡ [])
    × (d.tick.store ≡ store)
run-contended_example = run-contended params "w1" "w2" sum 10 store job holds w1_ne_w2 refl

abbrev z_params : Params
z_params = record params { instance_id = "z" }

z_free : held_by_other "z" "w1" 10 store ≡ false
unfolding held_by_other lookup
z_free = refl

run-Replays_example :
    Replays (run z_params "w1" sum 10 store) (clone_instance finished.instance) store
run-Replays_example = run-Replays z_params "w1" sum 10 store finished z_known refl z_free

completes_now :
    (run params "w1" (returns (num 4)) 10 store).outcome ≡ ok (RunOutcome.completed (num 4))
unfolding run after_acquire acquire_lock held_by_other lookup insert run_locked begun proceed
    init_instance clone_instance begin_tick run_program after_processor finish catching
    complete_result complete_instance terminal_transition fenced_out deliver fresh_tick outcome_of
    bullmq_durable.Runtime.Run.execute
completes_now = refl

run-Completed_example :
    Completed "i" (num 4) (run params "w1" (returns (num 4)) 10 store).tick.store
run-Completed_example = run-Completed params "w1" (returns (num 4)) (num 4) 10 store completes_now

abbrev undo : String → ℕ → RegisteredRollback
undo key seq = record {
  key = key;
  seq = seq;
  output = null;
  handler = λ output e. seven;
  retry = none;
}

abbrev undos : List RegisteredRollback
undos = undo "a" 1 ∷ undo "n" 3 ∷ undo "m" 2 ∷ []

abbrev undoing : Tick
undoing = record tick { rollbacks = undo "n" 3 ∷ [] }

one_undone :
    (run_rollbacks params (Thrown.text "down") undoing).0
    ≡ ok (record { rolled_back = "n" ∷ []; failed = [] })
unfolding lookup insert run_rollbacks roll_back_registered sort_rollbacks insert_rollback roll_back
    after_rollback execute execute_writable_step begin_or_replay begin_step begin_record
    begin_absent begin_from resume run_from attempt_loop attempt_round run_body end_round
    clone_value storage_key_for_phase step_init resolve_retry normalize_backoff first_duration
    merge_retry parse_duration
one_undone = refl

run_rollbacks-reported_example : Perm ("n" ∷ []) (map (λ rb. rb.key) undoing.rollbacks)
run_rollbacks-reported_example =
    run_rollbacks-reported params (Thrown.text "down") undoing one_undone

run_rollbacks-InOrder_example :
    InOrder (record { rolled_back = "n" ∷ []; failed = [] }) undoing.rollbacks
run_rollbacks-InOrder_example = run_rollbacks-InOrder params (Thrown.text "down") undoing one_undone

abbrev reaper : Reaper
reaper = record { queue_name = "q"; batch = 32; grace_ms = 10000 }

abbrev only_i : JobsExist
only_i id = id =s= "i"

abbrev answers : Answers
answers = record { terminal = λ status left. only_i; active = only_i; legacy = only_i }

abbrev of_queue : Store
of_queue = record store { records = ("q:i", finished) ∷ ("q:z", finished) ∷ [] }

pass-lookup_example :
    lookup (create_instance_id "q" "i") (pass reaper answers true 60000 of_queue).records
    ≡ lookup (create_instance_id "q" "i") of_queue.records
pass-lookup_example = pass-lookup reaper answers true 60000 "i" of_queue (λ status left. refl) refl

derive_view-coarse_example :
    (coarse (derive_view live.instance (waiting ∷ [])).derived_status ≡ InstanceStatus.running)
    × (is_some (derive_view live.instance (waiting ∷ [])).next_run_at
        ≡ is_due (derive_view live.instance (waiting ∷ [])).derived_status)
derive_view-coarse_example = derive_view-coarse live.instance (waiting ∷ [])

-- A sleep that is over still makes a yielded run count as sleeping.
over_sleeps :
    (derive_view
      (record live.instance { status = InstanceStatus.yielded })
      (record asleep { status = StepStatus.completed } ∷ [])).derived_status
    ≡ DerivedStatus.sleeping
unfolding view_of view_yielded view_sleeping first_of sleep_wake_at
over_sleeps = refl

-- A completion overwrites a cancellation.
cancel_lost :
    get_status "i"
      (complete_instance "i" (num 1) (some "w1") 20 (cancel_instance "i" none 15 store).1).1
    ≡ some InstanceStatus.completed
unfolding cancel_instance complete_instance terminal_transition fenced_out held_by_other lookup
    insert get_instance clone_instance
cancel_lost =
    (get_status-unfenced (completes (num 1)) "i" (some "w1") 20
      (cancel_instance "i" none 15 store).1 _ refl refl).1

fails_now :
    (run params "w1" (raises (Thrown.text "down")) 10 store).outcome
    ≡ ok (RunOutcome.retriable (Thrown.text "down"))
unfolding run after_acquire acquire_lock held_by_other lookup insert run_locked begun proceed
    init_instance clone_instance begin_tick run_program after_processor caught deliver fresh_tick
    outcome_of is_step_failure named_unrecoverable bullmq_durable.Runtime.Run.execute
fails_now = refl

run-retriable_example :
    (params.mode ≡ normal)
    × (is_step_failure (Thrown.text "down") ≡ false)
    × (unrecoverable params (Thrown.text "down") ≡ false)
    × (job_attempt params < attempts_total params)
run-retriable_example =
    run-retriable params "w1" (raises (Thrown.text "down")) 10 store (Thrown.text "down") fails_now

-- The last attempt of a job, and a lock that another token has taken meanwhile.
abbrev last_params : Params
last_params = record params { job = some (record job { attempts = some 1 }) }

abbrev overtaken : Tick
overtaken = record (fresh_tick 10 store) {
  store = record store { locks = ("i", record { token = "w2"; expires_at = 900 }) ∷ [] };
}

-- The fast path of a failure reports the run as failed although the fence refused to write it.
fenced_failure :
    ((caught last_params "w1" false (Thrown.text "down") overtaken).0
      ≡ ok (ended (RunOutcome.failed (Thrown.text "down"))))
    × ((caught last_params "w1" false (Thrown.text "down") overtaken).1.store ≡ overtaken.store)
unfolding caught is_step_failure named_unrecoverable fresh_tick fail_fast fail_instance
    terminal_transition fenced_out held_by_other lookup
fenced_failure = (refl, refl)
