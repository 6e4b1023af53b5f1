-- ===== src/Runtime/Failure.antt =====
-- The terminal-failure sequence (execution/runtime.ts): `settleTrigger`, `runFailureSequence`,
-- `completedMainSteps`, `settleTerminal`.
use bullmq_durable.Base.{
  String, Bool, true, false, not, ◌&&◌, Option, none, some, List, [], ◌∷◌, map, filter,
  if◌then◌else◌, or_else, coalesce,
}
use bullmq_durable.Value.{Value}
use bullmq_durable.Errors.{
  Thrown, plain_error, serialize_error, deserialize_error, is_yield, is_cancelled,
}
use bullmq_durable.Types.{
  InstanceState, InstanceStatus, CompensationReport, failure, main, is_main, is_sleep,
  is_completed_step, is_compensating,
}
use bullmq_durable.Result.{Result, ok, throws, out_of_fuel}
use bullmq_durable.Store.{Store}
use bullmq_durable.Store.Instances.{
  InstancePatch, no_patch, get_instance, update_instance, fail_instance,
  compensation_failed_instance, cancel_instance,
}
use bullmq_durable.Store.Steps.{get_steps}
use bullmq_durable.Executor.{Tick, Action, store_does, log, settled, take_pending_resume}
use bullmq_durable.Executor.Attempt.{compact_error}
use bullmq_durable.Runtime.{
  Params, Program, FailureInfo, TickResult, ended, yield_pending, suspended, failed, cancelled,
  deps_of, default_resume_delay_ms,
}
use bullmq_durable.Runtime.Processor.{run_program}
use bullmq_durable.Runtime.Rollbacks.{run_rollbacks}

-- `settleTrigger`.
unfoldable pub settle_trigger : Params → Option Thrown → Thrown
settle_trigger p fallback =
    or_else (coalesce p.settle_error fallback)
      (plain_error "durable run failed (resumed compensation)")

-- `store.updateInstance(instanceId, patch)`.
abbrev pub patch : Params → InstancePatch → Tick → Tick
patch p x t = store_does (λ s. (update_instance p.instance_id x t.now s).1) t

-- `takePendingResume() ?? { delayMs: DEFAULT_RESUME_DELAY_MS, reason }`.
unfoldable pub yield_with : String → Action TickResult
yield_with reason t =
    let (pending, u) = take_pending_resume t in
    (
      ok (
          yield_pending
            (or_else pending (record { delay_ms = default_resume_delay_ms; reason = reason }))),
      u,
    )

unfoldable pub cancel : Params → String → Action TickResult
cancel p token t = (
  ok (ended cancelled),
  store_does (λ s. (cancel_instance p.instance_id (some token) t.now s).1) t,
)

abbrev status_is_compensating : Option InstanceState → Bool
status_is_compensating none = false
status_is_compensating (some i) = is_compensating i.status

-- The trigger and the failed step are persisted at the first entry.
unfoldable pub enter_compensating : Params → Thrown → Option InstanceState → Tick → Tick
enter_compensating p e current t =
    if status_is_compensating current
    then t
    else patch p
        (record no_patch {
          status = some InstanceStatus.compensating;
          failure_error = some (serialize_error e);
          failed_step = t.failed_step_key;
        })
        t

abbrev pub trigger_of : Thrown → Option InstanceState → Thrown
trigger_of e none = e
trigger_of e (some i) = elim i.failure_error [ none ↦ e | some x ↦ deserialize_error x ]

abbrev pub failed_step_of : Option String → Option InstanceState → Option String
failed_step_of last none = last
failed_step_of last (some i) = coalesce i.failed_step last

-- `completedMainSteps`.
unfoldable pub completed_main_steps : String → Store → List String
completed_main_steps id s =
    map (λ st. st.key)
      (filter
        (λ st.
          is_main (or_else st.phase main)
          && (not (is_sleep st.type) && is_completed_step st.status))
        (get_steps id s))

abbrev pub is_empty {ℓ} : {A : Type ℓ} → List A → Bool
is_empty [] = true
is_empty (_ ∷ _) = false

unfoldable pub settle_result : Thrown → Bool × Store → Action TickResult
settle_result e (true, s) t = (ok (ended (failed e)), record t { store = s })
settle_result e (false, s) t = (ok (ended suspended), record t { store = s })

unfoldable pub settle_by : Bool → Params → String → Thrown → Action TickResult
settle_by true p token e t =
    settle_result e (compensation_failed_instance p.instance_id e (some token) t.now t.store) t
settle_by false p token e t =
    settle_result e (fail_instance p.instance_id e (some token) t.now t.store) t

abbrev persist_report : Params → CompensationReport → Tick → Tick
persist_report p report t =
    if is_empty report.rolled_back && is_empty report.failed
    then t
    else patch p (record no_patch { compensation = some report }) t

-- `settleTerminal`.
unfoldable pub settle_terminal : Params → String → Thrown → CompensationReport → Action TickResult
settle_terminal p token e report t =
    settle_by (not (is_empty report.failed)) p token e
      (log (settled (not (is_empty report.failed)) (compact_error e)) (persist_report p report t))

-- The two `catch` blocks: a yield suspends, a cancellation settles, and `otherwise` takes the rest.
unfoldable pub interrupted :
    Params → String → String → Action TickResult → Thrown → Action TickResult
interrupted p token reason otherwise e t =
    if is_yield e
    then yield_with reason t
    else if is_cancelled e
    then cancel p token t
    else otherwise t

-- What follows the `onFailure` handler.
unfoldable pub after_handler :
    Params → String → Thrown → CompensationReport → Result Value → Action TickResult
after_handler p token e report (ok v) t = settle_terminal p token e report t
after_handler p token e report (throws x) t =
    interrupted p token "onFailure yield" (settle_terminal p token e report) x t
after_handler p token e report out_of_fuel t = (out_of_fuel, t)

-- The second layer: the `onFailure` handler, then the terminal transition.
unfoldable pub handle_failure :
    Params
    → String
    → Thrown
    → Option String
    → CompensationReport
    → Option (FailureInfo → Program)
    → Action TickResult
handle_failure p token e failed_step report none t = settle_terminal p token e report t
handle_failure p token e failed_step report (some handler) t =
    let info : FailureInfo = record {
      error = e;
      failed_step = failed_step;
      completed = completed_main_steps p.instance_id t.store;
      compensation = report;
    } in
    let (r, u) = run_program (deps_of p) (handler info) (record t { active_phase = failure }) in
    after_handler p token e report r u

unfoldable pub after_rollbacks :
    Params → String → Thrown → Option String → Result CompensationReport → Action TickResult
after_rollbacks p token e failed_step (ok report) t =
    handle_failure p token e failed_step report p.on_failure t
after_rollbacks p token e failed_step (throws x) t =
    interrupted p token "compensation yield" (λ u. (throws x, u)) x t
after_rollbacks p token e failed_step out_of_fuel t = (out_of_fuel, t)

-- `runFailureSequence`.
unfoldable pub run_failure_sequence : Params → String → Thrown → Action TickResult
run_failure_sequence p token e t =
    let current = get_instance p.instance_id t.store in
    let (r, u) = run_rollbacks p (trigger_of e current) (enter_compensating p e current t) in
    after_rollbacks p token (trigger_of e current) (failed_step_of t.failed_step_key current) r u
