-- ===== src/Executor/Due.antt =====
-- What is due is done: a delivery at the recorded time goes on with the step or the sleep.
use bullmq_durable.Base.{
  ℕ, ◌+◌, ◌≤◌, ◌≡◌, refl, arith, String, Option, some, none, false, ltb, ◌∷◌, ap, if◌then◌else◌,
  or_else,
}
use bullmq_durable.Base.Dict.{lookup, insert, lookup-insert_self}
use bullmq_durable.Value.{Value}
use bullmq_durable.Types.{StepState, StepStatus, is_completed_step, is_cancelled_status, running}
use bullmq_durable.Result.{Result, ok, throws, out_of_fuel}
use bullmq_durable.Retry.{ResolvedRetry, resolve_retry}
use bullmq_durable.Store.{Store, InstanceRecord, clone_step, update_record}
use bullmq_durable.Store.Steps.{
  BeginStepInit, created, begin_step, begin_record, begin_absent, find_step, update_step,
  patch_steps, patch_step, next_seq, add_step,
}
use bullmq_durable.Store.Begin.{Has, begin_step-Has}
use bullmq_durable.Executor.{Deps, Tick, Body, StepOptions, normal, run_body, resume}
use bullmq_durable.Executor.Attempt.{Attempt, attempt_round, attempt_loop, save_running, save}
use bullmq_durable.Executor.Step.{
  storage_key, step_init, attempt, attempt_of, fuel_of, await_backoff, take_over, begin_by_status,
  begin_from, begin_or_replay, run_from, is_settlement_main_replay, replay_settlement_main_step,
  execute_writable_step, execute,
}
use bullmq_durable.Executor.Sleep.{
  sleep_for, sleep_writable, sleep_from, sleep_init, resume_sleep, await_wake, complete_sleep,
  replay_settlement_main_sleep,
}
use bullmq_durable.Executor.Invoked.{end_round-Quiet}

-- The call has run the body of `key` once, as the attempt `n`.
abbrev pub Runs : String → ℕ → Result Value × Tick → Tick → Type 0
Runs key n x t = x.1.invoked ≡ (key, n) ∷ t.invoked

attempt_loop-Runs :
    (a : Attempt) (fn : Body) (p : Result ResolvedRetry) (n : ℕ) (t : Tick)
    → a.deps.mode ≡ normal
    → Runs a.key n (attempt_loop a fn (fuel_of p) n t) t
unfolding attempt_loop attempt_round run_body
attempt_loop-Runs a fn (ok r) n t m = end_round-Quiet a n _ (fn n).outcome _ m
attempt_loop-Runs a fn (throws e) n t m = end_round-Quiet a n _ (fn n).outcome _ m
attempt_loop-Runs a fn out_of_fuel n t m = end_round-Quiet a n _ (fn n).outcome _ m

run_from-Runs :
    (d : Deps) (key : String) (o : StepOptions) (fn : Body) (n seq s : ℕ) (t : Tick)
    → d.mode ≡ normal
    → Runs key n (run_from d key o fn (attempt n seq s) t) t
unfolding run_from
run_from-Runs d key o fn n seq s t m =
    attempt_loop-Runs (attempt_of d key o seq s) fn (resolve_retry o.retry d.default_retry) n t m

le→ltb : (a b : ℕ) → a ≤ b → ltb b a ≡ false
le→ltb a b h = ground arith

not_settling : (d : Deps) (t : Tick) → d.mode ≡ normal → is_settlement_main_replay d t ≡ false
not_settling d t m = rw (m) refl

execute_normal :
    (d : Deps) (key : String) (o : StepOptions) (fn : Body) (t : Tick)
    → d.mode ≡ normal
    → execute d key o fn t ≡ execute_writable_step d key o fn t
unfolding execute
execute_normal d key o fn t m =
    ap
      (λ b. if b then replay_settlement_main_step d key o t else execute_writable_step d key o fn t)
      (not_settling d t m)

await_backoff_due :
    (d : Deps) (key : String) (o : Option ℕ) (at : ℕ) (t : Tick)
    → o ≡ some at
    → at ≤ t.now
    → await_backoff d key o t ≡ (ok tt, t)
unfolding await_backoff
await_backoff_due d key o at t e late = rw (e, await_backoff, le→ltb at t.now late) refl

-- In normal mode a step whose retry is due runs its body, as the next attempt.
pub execute_due :
    (d : Deps) (key : String) (o : StepOptions) (fn : Body) (t : Tick) (st : StepState) (at : ℕ)
    → d.mode ≡ normal
    → Has d.instance_id (storage_key key t) t.store st
    → st.status ≡ running
    → st.next_run_at ≡ some at
    → at ≤ t.now
    → Runs key (st.attempts + 1) (execute d key o fn t) t
unfolding execute_writable_step begin_or_replay begin_from begin_by_status take_over save_running
    save clone_step resume
execute_due d key o fn t st at m h run due late =
    rw
      (
        execute_normal d key o fn t m,
        begin_step-Has _ _ (step_init key t) _ st h,
        begin_from,
        run,
        begin_by_status,
        await_backoff_due d key st.next_run_at at t due late,
      )
      (run_from-Runs d key o fn (st.attempts + 1) _ _ _ m)

-- The sleep is over: the call returns, and the step is stored as completed at that time.
pub record Woken (id key : String) (st : StepState) (x : Result (Unit {0}) × Tick) (t : Tick)
    : Type 0 where
  pub returns : x.0 ≡ ok tt
  pub marked :
      find_step id key x.1.store
      ≡ some (patch_step (record { status = StepStatus.completed; completed_at = t.now }) st)

find_step-update_step :
    (id key : String) (s : Store) (st : StepState) (now : ℕ)
    → Has id key s st
    → find_step id key
        (update_step id key (record { status = StepStatus.completed; completed_at = now }) s)
      ≡ some (patch_step (record { status = StepStatus.completed; completed_at = now }) st)
unfolding find_step update_step update_record patch_steps
find_step-update_step id key s st now h =
    rw (h.known, update_record, lookup-insert_self id _ s.records, find_step, h.held, patch_steps)
      (lookup-insert_self key _ h.owner.steps)

await_wake_due :
    (d : Deps) (key : String) (o : Option ℕ) (at : ℕ) (t : Tick)
    → o ≡ some at
    → at ≤ t.now
    → await_wake d key (or_else o 0) t ≡ (ok tt, t)
unfolding await_wake
await_wake_due d key o at t e late = rw (e, await_wake, le→ltb at t.now late) refl

sleep_for_normal :
    (d : Deps) (key : String) (delay_ms : ℕ) (t : Tick)
    → d.mode ≡ normal
    → sleep_for d key delay_ms t ≡ sleep_writable d key delay_ms t
unfolding sleep_for
sleep_for_normal d key delay_ms t m =
    ap (λ b. if b then replay_settlement_main_sleep d key t else sleep_writable d key delay_ms t)
      (not_settling d t m)

-- A sleep whose time has come: in normal mode the call returns and marks the sleep completed.
pub sleep_for_due :
    (d : Deps) (key : String) (delay_ms : ℕ) (t : Tick) (st : StepState) (at : ℕ)
    → d.mode ≡ normal
    → Has d.instance_id (storage_key key t) t.store st
    → is_completed_step st.status ≡ false
    → st.next_run_at ≡ some at
    → at ≤ t.now
    → Woken d.instance_id (storage_key key t) st (sleep_for d key delay_ms t) t
unfolding sleep_writable sleep_from resume_sleep clone_step resume complete_sleep
sleep_for_due d key delay_ms t st at m h pending due late =
    rw
      (
        sleep_for_normal d key delay_ms t m,
        begin_step-Has _ _ (sleep_init key delay_ms t) _ st h,
        sleep_from,
        pending,
        await_wake_due d key st.next_run_at at t due late,
      )
      (record { returns = refl; marked = find_step-update_step _ _ t.store st t.now h })

begin_step_fresh :
    (id key : String) (init : BeginStepInit) (s : Store) (r : InstanceRecord)
    → lookup id s.records ≡ some r
    → is_cancelled_status r.instance.status ≡ false
    → lookup key r.steps ≡ none
    → begin_step id key init s ≡ (
      created (next_seq r.instance),
      record s { records = insert id (add_step key init r) s.records },
    )
unfolding begin_step begin_record begin_absent
begin_step_fresh id key init s r e live new = rw (e, begin_record, live, new, begin_absent) refl

-- In normal mode a step that is not stored runs its body, as the first attempt, if the instance is
-- known and not cancelled.
pub execute_fresh :
    (d : Deps) (key : String) (o : StepOptions) (fn : Body) (t : Tick) (r : InstanceRecord)
    → d.mode ≡ normal
    → lookup d.instance_id t.store.records ≡ some r
    → is_cancelled_status r.instance.status ≡ false
    → lookup (storage_key key t) r.steps ≡ none
    → Runs key 1 (execute d key o fn t) t
unfolding execute_writable_step begin_or_replay begin_from resume
execute_fresh d key o fn t r m known live new =
    rw
      (
        execute_normal d key o fn t m,
        begin_step_fresh _ _ (step_init key t) t.store r known live new,
        begin_from,
      )
      (run_from-Runs d key o fn 1 _ _ _ m)
