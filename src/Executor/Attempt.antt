-- ===== src/Executor/Attempt.antt =====
-- The attempt loop of execution/step-executor.ts: `runStepAttemptLoop`, `handleStepError`,
-- `recordRetryForSettlement`, `recordRetryAndYield`, `failStep`, `saveRunning`.
use bullmq_durable.Base.{
  ℕ, zero, suc, ◌+◌, String, ◌+++◌, Bool, true, not, ◌&&◌, ◌||◌, Option, none, some, [], ◌∷◌, ◌++◌,
  ltb, if◌then◌else◌, coalesce, or_else, is_some,
}
use bullmq_durable.Value.{Value, undefined, clone_value}
use bullmq_durable.Errors.{
  Thrown, SerializedError, serialize_error, mark_step_failure, retries_exhausted_error, is_yield,
  is_cancelled, is_non_retryable, as_retry_later,
}
use bullmq_durable.Types.{StepState, StepPhase, running, completed, failed, step, is_main}
use bullmq_durable.Phase.{storage_key_for_phase}
use bullmq_durable.Result.{Result, ok, throws, out_of_fuel}
use bullmq_durable.Retry.{ResolvedRetry, resolve_retry, compute_backoff, attempts_of}
use bullmq_durable.Store.Steps.{save_step}
use bullmq_durable.Executor.{
  Body, StepOptions, Deps, Tick, RunMode, normal, settle, is_settle, Action, ◌>>=◌, step_retry,
  step_failed, store_does, log, yield_to_bullmq, wait_or_yield, backoff, run_body,
}

-- The step that an attempt belongs to: the arguments that the executor's methods share.
pub record Attempt : Type 0 where
  pub deps : Deps
  pub key : String
  pub seq : ℕ
  pub started_at : ℕ
  pub options : StepOptions

-- The fields that every write of a step carries.
unfoldable pub running_state : Attempt → StepPhase → ℕ → StepState
running_state a phase attempts = record {
  key = a.key;
  type = step;
  phase = some phase;
  seq = some a.seq;
  status = running;
  result = undefined;
  error = none;
  attempts = attempts;
  started_at = some a.started_at;
  completed_at = none;
  failed_at = none;
  next_run_at = none;
}

-- `store.saveStep(instanceId, storageKey(key), state)`.
unfoldable pub save : Attempt → StepState → Tick → Tick
save a st t =
    store_does (save_step a.deps.instance_id (storage_key_for_phase t.active_phase a.key) st) t

-- `saveRunning`.
unfoldable pub save_running : Attempt → ℕ → Tick → Tick
save_running a attempts t = save a (running_state a t.active_phase attempts) t

-- `registerRollback`.
unfoldable pub register_rollback : String → ℕ → Value → StepOptions → Tick → Tick
register_rollback key seq output options t = elim options.on_rollback [
  | none ↦ t
  | some r ↦
      if is_main t.active_phase
      then record t {
        rollbacks =
            t.rollbacks
            ++ record {
              key = key;
              seq = seq;
              output = output;
              handler = r.handler;
              retry = r.retry;
            }
              ∷ [];
      }
      else t
]

-- `compactError`: the name and the message.
unfoldable pub compact_error : Thrown → SerializedError
compact_error e =
    let s = serialize_error e in record { name = s.name; message = s.message; code = none }

-- `failStep`.
unfoldable pub fail_step : Attempt → Thrown → ℕ → Tick → Tick
fail_step a e attempts t = log (step_failed a.key attempts (compact_error e)) (
    save a
      (record state { status = failed; error = some (serialize_error e); failed_at = some t.now })
      (record t {
        failed_step_key = if is_main t.active_phase then some a.key else t.failed_step_key;
      }))
  where
    state : StepState
    state = running_state a t.active_phase attempts

unfoldable pub completed_state : Attempt → ℕ → Value → Tick → StepState
completed_state a attempts result t = record state {
  status = completed;
  result = clone_value result;
  completed_at = some t.now;
}
  where
    state : StepState
    state = running_state a t.active_phase attempts

-- The successful end of an attempt: the cloned result is saved, the rollback registered.
unfoldable pub checkpoint : Attempt → ℕ → Value → Tick → Tick
checkpoint a attempts result t =
    register_rollback a.key a.seq (clone_value result) a.options
      (save a (completed_state a attempts result t) t)

-- `maxAttempts`; `none` is `Number.POSITIVE_INFINITY`.
unfoldable pub max_attempts : Attempt → Thrown → ResolvedRetry → Option ℕ
max_attempts a e retry =
    if is_some (as_retry_later e)
      && (not (is_some (coalesce (attempts_of a.options.retry) (attempts_of a.deps.default_retry)))
          && not (is_settle a.deps.mode))
    then none
    else some retry.attempts

-- `attempts < maxAttempts`.
abbrev pub below_max : ℕ → Option ℕ → Bool
below_max attempts none = true
below_max attempts (some n) = ltb attempts n

abbrev explicit_delay : Option (Option ℕ × String) → Option ℕ
explicit_delay none = none
explicit_delay (some (delay_ms, reason)) = delay_ms

abbrev yield_reason : String → Option (Option ℕ × String) → String
yield_reason key none = key +++ " failed, retrying"
yield_reason key (some (delay_ms, reason)) = reason

-- The state that records a retry: the error only of a genuine failure.
unfoldable pub retry_state : Attempt → Thrown → ℕ → Option ℕ → Tick → StepState
retry_state a e attempts next_run_at t = record state {
  error = if genuine then some (serialize_error e) else none;
  failed_at = if genuine then some t.now else none;
  next_run_at = next_run_at;
}
  where
    genuine : Bool
    genuine = not (is_some (as_retry_later e))

    state : StepState
    state = running_state a t.active_phase attempts

-- `recordRetryForSettlement` and `recordRetryAndYield`: the delay to wait out, or a yield.
unfoldable pub record_retry : RunMode → Attempt → Thrown → ℕ → ℕ → Action ℕ
record_retry settle a e attempts delay_ms t =
    (ok delay_ms, save a (retry_state a e attempts none t) t)
record_retry normal a e attempts delay_ms t =
    yield_to_bullmq normal delay_ms ("step:" +++ yield_reason a.key (as_retry_later e))
      (save a (retry_state a e attempts (some (t.now + delay_ms)) t) t)

-- A failure within the budget: its delay is chosen and logged, and the retry recorded. Each backoff
-- takes the next draw of `Math.random`.
unfoldable pub schedule_retry : Attempt → Thrown → ℕ → ResolvedRetry → Action ℕ
schedule_retry a e attempts retry t =
    let delay_ms =
      or_else (explicit_delay (as_retry_later e))
        (compute_backoff retry attempts (a.deps.random t.draws)) in
    let logged =
      if is_some (as_retry_later e)
      then t
      else log (step_retry a.key attempts (compact_error e) delay_ms) t in
    record_retry a.deps.mode a e attempts delay_ms (record logged { draws = suc t.draws })

-- What a step throws when its budget is used up.
unfoldable pub exhausted_error : Attempt → Thrown → ℕ → Thrown
exhausted_error a e attempts =
    if is_some (as_retry_later e)
    then mark_step_failure (retries_exhausted_error a.key attempts (serialize_error e))
    else mark_step_failure e

unfoldable pub retry_or_fail : Attempt → Thrown → ℕ → ResolvedRetry → Action ℕ
retry_or_fail a e attempts retry t =
    if below_max attempts (max_attempts a e retry)
    then schedule_retry a e attempts retry t
    else (throws (exhausted_error a e attempts), fail_step a e attempts t)

-- The part of `handleStepError` behind `resolveRetry`, which may throw.
unfoldable pub with_policy : Attempt → Thrown → ℕ → Result ResolvedRetry → Action ℕ
with_policy a e attempts (ok retry) t = retry_or_fail a e attempts retry t
with_policy a e attempts (throws x) t = (throws x, t)
with_policy a e attempts out_of_fuel t = (out_of_fuel, t)

-- `handleStepError`.
unfoldable pub handle_step_error : Attempt → Thrown → ℕ → Action ℕ
handle_step_error a e attempts t =
    if is_yield e || is_cancelled e
    then (throws e, t)
    else if is_non_retryable e
    then (throws (mark_step_failure e), fail_step a e attempts t)
    else with_policy a e attempts (resolve_retry a.options.retry a.deps.default_retry) t

-- The `catch` of the loop; `again` is its next round.
unfoldable pub after_failure : Attempt → ℕ → Action Value → Thrown → Action Value
after_failure a attempts again e = do
  delay_ms ← handle_step_error a e attempts
  _ ← wait_or_yield a.deps.mode backoff delay_ms ("step:" +++ (a.key +++ " retry"))
  λ t. again (save_running a (attempts + 1) t)

-- What follows the end of the body: a checkpoint, or the `catch`.
unfoldable pub end_round : Attempt → ℕ → Action Value → Result Value → Action Value
end_round a attempts again (ok v) t = (ok (clone_value v), checkpoint a attempts v t)
end_round a attempts again (throws e) t = after_failure a attempts again e t
end_round a attempts again out_of_fuel t = (out_of_fuel, t)

-- One round of the loop.
unfoldable pub attempt_round : Attempt → Body → ℕ → Action Value → Action Value
attempt_round a fn attempts again t =
    let (r, u) = run_body a.key attempts fn t in end_round a attempts again r u

-- `runStepAttemptLoop`, by fuel.
unfoldable pub attempt_loop : Attempt → Body → ℕ → ℕ → Action Value
attempt_loop a fn zero attempts t = (out_of_fuel, t)
attempt_loop a fn (suc fuel) attempts t =
    attempt_round a fn attempts (λ u. attempt_loop a fn fuel (attempts + 1) u) t
