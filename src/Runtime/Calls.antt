-- ===== src/Runtime/Calls.antt =====
-- The processor and the compensations end: each of their calls does.
use bullmq_durable.Value.{undefined}
use bullmq_durable.Types.{CompensationReport, StepState, is_completed_step}
use bullmq_durable.Executor.{sleep, Action, Deps, Outcome, RegisteredRollback, Tick}
use bullmq_durable.Store.Steps.{cancelled, BeginStepResult, created, existing, missing}
use bullmq_durable.Runtime.Rollbacks.{
  roll_back_registered, after_rollback, empty_report, roll_back, run_rollbacks, sort_rollbacks,
}
use bullmq_durable.Runtime.Processor.{answer, run_program}
use bullmq_durable.Runtime.{Value, Params, Program, deps_of, raises, returns, sleep_then, step_then}
use bullmq_durable.Executor.Step.{is_settlement_main_replay}
use bullmq_durable.Executor.Sleep.{
  await_wake, replay_settlement_main_sleep, replay_sleep_from, resume_sleep, sleep_for, sleep_from,
  sleep_writable, start_sleep,
}
use bullmq_durable.Executor.Fuel.{execute-Ends, resume-Ends, wait_or_yield-Ends}
use bullmq_durable.Errors.{Thrown, is_cancelled, is_yield}
use bullmq_durable.Base.{
  ℕ, String, Bool, true, false, Option, none, some, List, [], ◌∷◌, ◌||◌, if◌then◌else◌, leb, ltb,
}
use bullmq_durable.Result.{Result, ok, throws, out_of_fuel, Ends}

pub if_Ends {ℓ} :
    {A : Type ℓ} (b : Bool) (x y : Result A × Tick)
    → Ends x.0
    → Ends y.0
    → Ends (if b then x else y).0
if_Ends true x y h k = h
if_Ends false x y h k = k

await_wake-Ends : (d : Deps) (key : String) (at : ℕ) (t : Tick) → Ends (await_wake d key at t).0
unfolding await_wake
await_wake-Ends d key at t = if_Ends (ltb t.now at) _ _ (wait_or_yield-Ends d.mode sleep _ _ t) tt

sleep_from-Ends :
    (d : Deps) (key : String) (ms : ℕ) (b : BeginStepResult) (t : Tick)
    → Ends (sleep_from d key ms b t).0
unfolding sleep_from resume_sleep start_sleep
sleep_from-Ends d key ms missing t = tt
sleep_from-Ends d key ms cancelled t = tt
sleep_from-Ends d key ms (existing st) t =
    if_Ends (is_completed_step st.status) _ _ tt
      (resume-Ends _ _ _ (await_wake-Ends d key _ t) (λ x e. tt))
sleep_from-Ends d key ms (created seq) t =
    if_Ends (leb ms 0) _ _ tt (wait_or_yield-Ends d.mode sleep _ _ t)

replay_sleep_from-Ends :
    (key : String) (st : Option StepState) (t : Tick) → Ends (replay_sleep_from key st t).0
unfolding replay_sleep_from
replay_sleep_from-Ends key none t = tt
replay_sleep_from-Ends key (some st) t = if_Ends (is_completed_step st.status) _ _ tt tt

sleep_for-Ends : (d : Deps) (key : String) (ms : ℕ) (t : Tick) → Ends (sleep_for d key ms t).0
unfolding sleep_for replay_settlement_main_sleep sleep_writable
sleep_for-Ends d key ms t =
    if_Ends (is_settlement_main_replay d t) _ _ (replay_sleep_from-Ends key _ t)
      (sleep_from-Ends d key ms _ _)

answer-Ends {ℓ} :
    {A : Type ℓ} (f : A → Value) (next : Outcome → Action Value) (r : Result A) (t : Tick)
    → Ends r
    → ((o : Outcome) (u : Tick) → Ends (next o u).0)
    → Ends (answer f next r t).0
unfolding answer
answer-Ends f next (ok v) t h k = k _ t
answer-Ends f next (throws e) t h k = k _ t
answer-Ends f next out_of_fuel t h k = h

pub run_program-Ends : (d : Deps) (p : Program) (t : Tick) → Ends (run_program d p t).0
unfolding run_program
run_program-Ends d (returns v) t = tt
run_program-Ends d (raises e) t = tt
run_program-Ends d (step_then key o fn next) t =
    answer-Ends (λ v. v) _ _ _ (execute-Ends d key o fn t) (λ x u. run_program-Ends d (next x) u)
run_program-Ends d (sleep_then key ms next) t =
    answer-Ends (λ v. undefined) _ _ _ (sleep_for-Ends d key ms t)
      (λ x u. run_program-Ends d (next x) u)

after_rollback-Ends :
    (rb : RegisteredRollback) (report : CompensationReport)
    (next : CompensationReport → Action CompensationReport) (r : Result Value) (t : Tick)
    → Ends r
    → ((x : CompensationReport) (u : Tick) → Ends (next x u).0)
    → Ends (after_rollback rb report next r t).0
unfolding after_rollback
after_rollback-Ends rb report next (ok v) t h k = k _ _
after_rollback-Ends rb report next (throws e) t h k =
    if_Ends (is_yield e || is_cancelled e) _ _ tt (k _ _)
after_rollback-Ends rb report next out_of_fuel t h k = h

roll_back-Ends :
    (p : Params) (e : Thrown) (rbs : List RegisteredRollback) (report : CompensationReport)
    (t : Tick)
    → Ends (roll_back p e rbs report t).0
unfolding roll_back
roll_back-Ends p e [] report t = tt
roll_back-Ends p e (rb ∷ rest) report t =
    after_rollback-Ends rb report _ _ _ (execute-Ends (deps_of p) rb.key _ _ t)
      (λ x u. roll_back-Ends p e rest x u)

registered-Ends :
    (p : Params) (e : Thrown) (rbs : List RegisteredRollback) (t : Tick)
    → Ends (roll_back_registered p e rbs t).0
unfolding roll_back_registered
registered-Ends p e [] t = tt
registered-Ends p e (rb ∷ rbs) t = roll_back-Ends p e (sort_rollbacks (rb ∷ rbs)) empty_report _

pub run_rollbacks-Ends : (p : Params) (e : Thrown) (t : Tick) → Ends (run_rollbacks p e t).0
unfolding run_rollbacks
run_rollbacks-Ends p e t = registered-Ends p e t.rollbacks t
