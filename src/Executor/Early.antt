-- ===== src/Executor/Early.antt =====
-- An early re-delivery, by a crash, a stall takeover or a promotion, does not cut a wait short.
use bullmq_durable.Base.{
  ℕ, ◌-◌, ◌≤◌, ◌<◌, ◌≡◌, refl, arith, String, Option, some, none, true, false, lt→ltb,
}
use bullmq_durable.Store.{clone_step}
use bullmq_durable.Executor.Step.{
  storage_key, begin_by_status, begin_from, step_init, execute_writable_step, begin_or_replay,
  await_backoff, execute,
}
use bullmq_durable.Store.Begin.{Has, begin_step-Has}
use bullmq_durable.Types.{is_completed_step, StepState, running}
use bullmq_durable.Result.{Result, throws}
use bullmq_durable.Errors.{Thrown, is_yield, yield_error}
use bullmq_durable.Executor.Sleep.{
  sleep_for, sleep_writable, sleep_from, sleep_init, resume_sleep, await_wake,
}
use bullmq_durable.Executor.{
  wait_or_yield, resume, yield_to_bullmq, Deps, Tick, Body, StepOptions, normal, PendingResume,
  earlier,
}

-- The tick yields to be delivered again within `delay`: nothing was written and no body was run.
pub record Suspends {ℓ} {A : Type ℓ} (x : Result A × Tick) (t : Tick) (delay : ℕ) : Type ℓ where
  pub request : PendingResume
  pub pending : x.1.pending_resume ≡ some request
  pub soon : request.delay_ms ≤ delay
  pub yields : (e : Thrown) × (x.0 ≡ throws e) × (is_yield e ≡ true)
  pub unwritten : x.1.store ≡ t.store
  pub unrun : x.1.invoked ≡ t.invoked

earlier-le : (d : ℕ) (why : String) (o : Option PendingResume) → (earlier d why o).delay_ms ≤ d
unfolding earlier
earlier-le d why none = omega arith
earlier-le d why (some p) = ground arith

yield_Suspends {ℓ} :
    {A : Type ℓ} (d : ℕ) (why : String) (t : Tick)
    → Suspends (yield_to_bullmq {A = A} normal d why t) t d
unfolding yield_to_bullmq yield_error
yield_Suspends d why t = record {
  request = earlier d why t.pending_resume;
  pending = refl;
  soon = earlier-le d why t.pending_resume;
  yields = (yield_error why, refl, refl);
  unwritten = refl;
  unrun = refl;
}

-- A step that waits out a backoff: in normal mode its body is not run before the recorded time. The
-- call yields, to be delivered again after at most the rest of the wait, and writes nothing.
pub execute_early :
    (d : Deps) (key : String) (o : StepOptions) (fn : Body) (t : Tick) (st : StepState) (at : ℕ)
    → d.mode ≡ normal
    → Has d.instance_id (storage_key key t) t.store st
    → st.status ≡ running
    → st.next_run_at ≡ some at
    → t.now < at
    → Suspends (execute d key o fn t) t (at - t.now)
unfolding execute execute_writable_step begin_or_replay begin_from begin_by_status await_backoff
    wait_or_yield clone_step resume yield_to_bullmq
execute_early d key o fn t st at m h run due early =
    rw
      (
        m,
        begin_step-Has _ _ (step_init key t) _ st h,
        begin_from,
        run,
        begin_by_status,
        due,
        await_backoff,
        lt→ltb t.now at early,
      )
      (rw (m, wait_or_yield) (yield_Suspends (at - t.now) _ t))

-- A sleep that has not elapsed: in normal mode the call yields for at most the rest of the sleep,
-- and the sleep is not marked completed.
pub sleep_for_early :
    (d : Deps) (key : String) (delay_ms : ℕ) (t : Tick) (st : StepState) (at : ℕ)
    → d.mode ≡ normal
    → Has d.instance_id (storage_key key t) t.store st
    → is_completed_step st.status ≡ false
    → st.next_run_at ≡ some at
    → t.now < at
    → Suspends (sleep_for d key delay_ms t) t (at - t.now)
unfolding sleep_for sleep_writable sleep_from resume_sleep await_wake wait_or_yield clone_step
    resume yield_to_bullmq
sleep_for_early d key delay_ms t st at m h pending due early =
    rw
      (
        m,
        begin_step-Has _ _ (sleep_init key delay_ms t) _ st h,
        sleep_from,
        pending,
        due,
        await_wake,
        lt→ltb t.now at early,
      )
      (rw (m, wait_or_yield) (yield_Suspends (at - t.now) _ t))
