-- ===== src/Executor/Step.antt =====
-- `ctx.step` (execution/step-executor.ts): `execute`, `replaySettlementMainStep`,
-- `executeWritableStep`, `beginOrReplayWritableStep`.
use bullmq_durable.Base.{
  ℕ, suc, ◌+◌, ◌-◌, String, ◌+++◌, Bool, ◌&&◌, Option, none, some, ltb, if◌then◌else◌, or_else,
}
use bullmq_durable.Value.{Value}
use bullmq_durable.Errors.{
  Thrown, deserialize_error, mark_step_failure, cancelled_error, settle_incomplete_error,
}
use bullmq_durable.Types.{
  StepStatus, completed, failed, StepState, step, is_main, is_completed_step, is_failed_step,
}
use bullmq_durable.Phase.{storage_key_for_phase}
use bullmq_durable.Result.{Result, ok, throws, out_of_fuel}
use bullmq_durable.Retry.{ResolvedRetry, resolve_retry}
use bullmq_durable.Store.Steps.{
  BeginStepInit, BeginStepResult, missing, cancelled, existing, created, begin_step, get_step,
}
use bullmq_durable.Executor.{
  Body, StepOptions, Deps, Tick, is_settle, Action, ◌>>=◌, wait_or_yield, backoff,
}
use bullmq_durable.Executor.Attempt.{Attempt, save_running, register_rollback, attempt_loop}

-- `WritableBegin`.
pub data WritableBegin : Type 0 where
  replayed : Value → WritableBegin
  attempt : ℕ → ℕ → ℕ → WritableBegin

abbrev pub storage_key : String → Tick → String
storage_key key t = storage_key_for_phase t.active_phase key

-- The settled error of a failed step.
unfoldable pub replayed_error : String → StepState → Thrown
replayed_error key st = mark_step_failure (
    deserialize_error (
      or_else st.error
        (record { name = "Error"; message = "Step \"" +++ (key +++ "\" failed"); code = none })))

abbrev pub fail_main : String → Tick → Tick
fail_main key t = record t {
  failed_step_key = if is_main t.active_phase then some key else t.failed_step_key;
}

abbrev pub attempt_of : Deps → String → StepOptions → ℕ → ℕ → Attempt
attempt_of d key options seq started_at = record {
  deps = d;
  key = key;
  seq = seq;
  started_at = started_at;
  options = options;
}

-- `nextRunAt !== undefined && nextRunAt > now`: the persisted backoff is waited out first.
unfoldable pub await_backoff : Deps → String → Option ℕ → Action (Unit {0})
await_backoff d key none t = (ok tt, t)
await_backoff d key (some next_run_at) t =
    if ltb t.now next_run_at
    then wait_or_yield d.mode backoff (next_run_at - t.now) ("step:" +++ (key +++ " backoff")) t
    else (ok tt, t)

-- The next attempt of a step that was left `running`; `now` was read before the wait.
unfoldable pub take_over : Deps → String → StepOptions → StepState → ℕ → Action WritableBegin
take_over d key options st now t = (
  ok (attempt (st.attempts + 1) (or_else st.seq 0) (or_else st.started_at now)),
  save_running (attempt_of d key options (or_else st.seq 0) (or_else st.started_at now))
      (st.attempts + 1) t,
)

-- The branches on the status of an existing record; `running` is a scheduled retry, or a crash
-- recovery mid-attempt.
unfoldable pub begin_by_status :
    Deps → String → StepOptions → StepState → StepStatus → Action WritableBegin
begin_by_status d key options st completed t =
    (ok (replayed st.result), register_rollback key (or_else st.seq 0) st.result options t)
begin_by_status d key options st failed t = (throws (replayed_error key st), fail_main key t)
begin_by_status d key options st _ t =
    (await_backoff d key st.next_run_at >>= λ _. take_over d key options st t.now) t

-- What follows the answer of `beginStep`.
unfoldable pub begin_from : Deps → String → StepOptions → BeginStepResult → Action WritableBegin
begin_from d key options missing t = (throws (cancelled_error d.instance_id), t)
begin_from d key options cancelled t = (throws (cancelled_error d.instance_id), t)
begin_from d key options (created seq) t = (ok (attempt 1 seq t.now), t)
begin_from d key options (existing st) t = begin_by_status d key options st st.status t

unfoldable pub step_init : String → Tick → BeginStepInit
step_init key t = record {
  key = key;
  type = step;
  phase = t.active_phase;
  now = t.now;
  next_run_at = none;
}

-- `beginOrReplayWritableStep`.
unfoldable pub begin_or_replay : Deps → String → StepOptions → Action WritableBegin
begin_or_replay d key options t =
    let (begin, s) = begin_step d.instance_id (storage_key key t) (step_init key t) t.store in
    begin_from d key options begin (record t { store = s })

-- The fuel of the attempt loop: as many rounds as the policy allows attempts, one at least.
abbrev pub fuel_of : Result ResolvedRetry → ℕ
fuel_of (ok retry) = suc (retry.attempts - 1)
fuel_of (throws e) = 1
fuel_of out_of_fuel = 1

abbrev pub attempt_fuel : Deps → StepOptions → ℕ
attempt_fuel d options = fuel_of (resolve_retry options.retry d.default_retry)

unfoldable pub run_from : Deps → String → StepOptions → Body → WritableBegin → Action Value
run_from d key options fn (replayed v) t = (ok v, t)
run_from d key options fn (attempt attempts seq started_at) t =
    attempt_loop (attempt_of d key options seq started_at) fn (attempt_fuel d options) attempts t

-- `executeWritableStep`.
unfoldable pub execute_writable_step : Deps → String → StepOptions → Body → Action Value
execute_writable_step d key options fn = do
  begin ← begin_or_replay d key options
  run_from d key options fn begin

unfoldable pub replay_from : String → StepOptions → Option StepState → Action Value
replay_from key options none t = (throws (settle_incomplete_error key), t)
replay_from key options (some st) t =
    if is_completed_step st.status
    then (ok st.result, register_rollback key (or_else st.seq 0) st.result options t)
    else if is_failed_step st.status
    then (throws (replayed_error key st), record t { failed_step_key = some key })
    else (throws (settle_incomplete_error key), t)

-- `replaySettlementMainStep`.
unfoldable pub replay_settlement_main_step : Deps → String → StepOptions → Action Value
replay_settlement_main_step d key options t =
    replay_from key options (get_step d.instance_id (storage_key key t) t.store) t

-- `isSettlementMainReplay`.
abbrev pub is_settlement_main_replay : Deps → Tick → Bool
is_settlement_main_replay d t = is_settle d.mode && is_main t.active_phase

-- `execute`.
unfoldable pub execute : Deps → String → StepOptions → Body → Action Value
execute d key options fn t =
    if is_settlement_main_replay d t
    then replay_settlement_main_step d key options t
    else execute_writable_step d key options fn t
