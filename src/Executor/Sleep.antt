-- ===== src/Executor/Sleep.antt =====
-- `ctx.sleep` (execution/step-executor.ts): `sleepFor`, `replaySettlementMainSleep`. A negative
-- delay, which `sleepUntil` may give, acts as 0, so delays are natural.
use bullmq_durable.Base.{
  Option, ℕ, ◌+◌, ◌-◌, String, ◌+++◌, none, some, ltb, leb, if◌then◌else◌, or_else,
}
use bullmq_durable.Errors.{cancelled_error, settle_incomplete_error}
use bullmq_durable.Types.{StepState, sleep, completed, is_completed_step}
use bullmq_durable.Result.{ok, throws}
use bullmq_durable.Store.Steps.{
  BeginStepResult, BeginStepInit, missing, cancelled, existing, created, begin_step, get_step,
  update_step,
}
use bullmq_durable.Executor.{Deps, Tick, Action, ◌>>=◌, wait_or_yield, WaitKind, store_does}
use bullmq_durable.Executor.Step.{storage_key, is_settlement_main_replay}

-- `updateStep(…, { status: "completed", completedAt })`.
unfoldable pub complete_sleep : Deps → String → ℕ → Tick → Tick
complete_sleep d key completed_at t =
    store_does
      (update_step d.instance_id (storage_key key t)
        (record { status = completed; completed_at = completed_at }))
      t

-- An early wake suspends again for the remainder.
unfoldable pub await_wake : Deps → String → ℕ → Action (Unit {0})
await_wake d key wake_at t =
    if ltb t.now wake_at
    then wait_or_yield d.mode WaitKind.sleep (wake_at - t.now) ("sleep:" +++ key) t
    else (ok tt, t)

unfoldable pub resume_sleep : Deps → String → StepState → Action (Unit {0})
resume_sleep d key st t =
    if is_completed_step st.status
    then (ok tt, t)
    else (await_wake d key (or_else st.next_run_at 0) >>= λ _ u.
          (ok tt, complete_sleep d key u.now u))
        t

unfoldable pub start_sleep : Deps → String → ℕ → Action (Unit {0})
start_sleep d key delay_ms t =
    if leb delay_ms 0
    then (ok tt, complete_sleep d key t.now t)
    else wait_or_yield d.mode WaitKind.sleep delay_ms ("sleep:" +++ key) t

unfoldable pub replay_sleep_from : String → Option StepState → Action (Unit {0})
replay_sleep_from key none t = (throws (settle_incomplete_error key), t)
replay_sleep_from key (some st) t =
    if is_completed_step st.status then (ok tt, t) else (throws (settle_incomplete_error key), t)

-- `replaySettlementMainSleep`.
unfoldable pub replay_settlement_main_sleep : Deps → String → Action (Unit {0})
replay_settlement_main_sleep d key t =
    replay_sleep_from key (get_step d.instance_id (storage_key key t) t.store) t

-- What follows the answer of `beginStep`.
unfoldable pub sleep_from : Deps → String → ℕ → BeginStepResult → Action (Unit {0})
sleep_from d key delay_ms missing t = (throws (cancelled_error d.instance_id), t)
sleep_from d key delay_ms cancelled t = (throws (cancelled_error d.instance_id), t)
sleep_from d key delay_ms (existing st) t = resume_sleep d key st t
sleep_from d key delay_ms (created seq) t = start_sleep d key delay_ms t

unfoldable pub sleep_init : String → ℕ → Tick → BeginStepInit
sleep_init key delay_ms t = record {
  key = key;
  type = sleep;
  phase = t.active_phase;
  now = t.now;
  next_run_at = some (t.now + delay_ms);
}

unfoldable pub sleep_writable : Deps → String → ℕ → Action (Unit {0})
sleep_writable d key delay_ms t =
    let (begin, s) =
      begin_step d.instance_id (storage_key key t) (sleep_init key delay_ms t) t.store in
    sleep_from d key delay_ms begin (record t { store = s })

-- `sleepFor`.
unfoldable pub sleep_for : Deps → String → ℕ → Action (Unit {0})
sleep_for d key delay_ms t =
    if is_settlement_main_replay d t
    then replay_settlement_main_sleep d key t
    else sleep_writable d key delay_ms t
