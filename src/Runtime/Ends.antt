-- ===== src/Runtime/Ends.antt =====
-- A delivery of a job ends: no fuel of the model is ever used up.
use bullmq_durable.Runtime.Calls.{if_Ends, run_program-Ends, run_rollbacks-Ends}
use bullmq_durable.Types.{CompensationReport, InstanceState}
use bullmq_durable.Executor.{Action, Tick}
use bullmq_durable.Store.{Store}
use bullmq_durable.Runtime.Run.{
  begun, after_acquire, after_processor, catching, caught, complete_result, deliver, fail_fast,
  finish, leaves_to_bullmq, proceed, run, run_locked, suspend,
}
use bullmq_durable.Runtime.Failure.{
  after_handler, after_rollbacks, cancel, handle_failure, interrupted, is_empty,
  run_failure_sequence, settle_by, settle_result, settle_terminal, yield_with,
}
use bullmq_durable.Runtime.{
  Value, FailureInfo, Params, Program, RunOutcome, TickResult, deps_of, ended, raises, returns,
  sleep_then, step_then, yield_pending,
}
use bullmq_durable.Errors.{Thrown, is_cancelled, is_settle_incomplete, is_yield}
use bullmq_durable.Base.{is_some, ℕ, String, Bool, true, false, Option, none, some, not, ◌&&◌}
use bullmq_durable.Result.{Result, ok, throws, out_of_fuel, Ends}

settle_result-Ends : (e : Thrown) (x : Bool × Store) (t : Tick) → Ends (settle_result e x t).0
unfolding settle_result
settle_result-Ends e (true, s) t = tt
settle_result-Ends e (false, s) t = tt

settle_by-Ends :
    (b : Bool) (p : Params) (token : String) (e : Thrown) (t : Tick)
    → Ends (settle_by b p token e t).0
unfolding settle_by
settle_by-Ends true p token e t = settle_result-Ends e _ t
settle_by-Ends false p token e t = settle_result-Ends e _ t

interrupted-Ends :
    (p : Params) (token reason : String) (rest : Action TickResult) (e : Thrown) (t : Tick)
    → Ends (rest t).0
    → Ends (interrupted p token reason rest e t).0
unfolding interrupted yield_with cancel
interrupted-Ends p token reason rest e t h =
    if_Ends (is_yield e) _ _ tt (if_Ends (is_cancelled e) _ _ tt h)

settle_terminal-Ends :
    (p : Params) (token : String) (e : Thrown) (report : CompensationReport) (t : Tick)
    → Ends (settle_terminal p token e report t).0
unfolding settle_terminal
settle_terminal-Ends p token e report t = settle_by-Ends _ p token e _

after_handler-Ends :
    (p : Params) (token : String) (e : Thrown) (report : CompensationReport) (r : Result Value)
    (t : Tick)
    → Ends r
    → Ends (after_handler p token e report r t).0
unfolding after_handler
after_handler-Ends p token e report (ok v) t h = settle_terminal-Ends p token e report t
after_handler-Ends p token e report (throws x) t h =
    interrupted-Ends p token _ _ x t (settle_terminal-Ends p token e report t)
after_handler-Ends p token e report out_of_fuel t h = h

handle_failure-Ends :
    (p : Params) (token : String) (e : Thrown) (failed_step : Option String)
    (report : CompensationReport) (h : Option (FailureInfo → Program)) (t : Tick)
    → Ends (handle_failure p token e failed_step report h t).0
unfolding handle_failure
handle_failure-Ends p token e failed_step report none t = settle_terminal-Ends p token e report t
handle_failure-Ends p token e failed_step report (some h) t =
    after_handler-Ends p token e report _ _ (run_program-Ends (deps_of p) _ _)

after_rollbacks-Ends :
    (p : Params) (token : String) (e : Thrown) (failed_step : Option String)
    (r : Result CompensationReport) (t : Tick)
    → Ends r
    → Ends (after_rollbacks p token e failed_step r t).0
unfolding after_rollbacks
after_rollbacks-Ends p token e failed_step (ok report) t h =
    handle_failure-Ends p token e failed_step report p.on_failure t
after_rollbacks-Ends p token e failed_step (throws x) t h = interrupted-Ends p token _ _ x t tt
after_rollbacks-Ends p token e failed_step out_of_fuel t h = h

run_failure_sequence-Ends :
    (p : Params) (token : String) (e : Thrown) (t : Tick)
    → Ends (run_failure_sequence p token e t).0
unfolding run_failure_sequence
run_failure_sequence-Ends p token e t =
    after_rollbacks-Ends p token _ _ _ _ (run_rollbacks-Ends p _ _)

caught-Ends :
    (p : Params) (token : String) (entered : Bool) (e : Thrown) (t : Tick)
    → Ends (caught p token entered e t).0
unfolding caught yield_with cancel fail_fast
caught-Ends p token entered e t = if_Ends (is_yield e) _ _ tt (
    if_Ends (is_cancelled e) _ _ tt (
      if_Ends (is_settle_incomplete e) _ _ (run_failure_sequence-Ends p token _ t) (
        if_Ends entered _ _ (run_failure_sequence-Ends p token _ t) (
          if_Ends (leaves_to_bullmq p e) _ _ tt (
            if_Ends (is_empty t.rollbacks && not (is_some p.on_failure)) _ _ tt
              (run_failure_sequence-Ends p token e t))))))

complete_result-Ends : (v : Value) (x : Bool × Store) (t : Tick) → Ends (complete_result v x t).0
unfolding complete_result
complete_result-Ends v (true, s) t = tt
complete_result-Ends v (false, s) t = tt

finish-Ends :
    (p : Params) (token : String) (entered : Bool) (v : Value) (t : Tick)
    → Ends (finish p token entered v t).0
unfolding finish
finish-Ends p token true v t = run_failure_sequence-Ends p token _ t
finish-Ends p token false v t = complete_result-Ends v _ t

catching-Ends :
    (p : Params) (token : String) (entered : Bool) (x : Result TickResult × Tick)
    → Ends x.0
    → Ends (catching p token entered x).0
unfolding catching
catching-Ends p token entered (ok r, t) h = tt
catching-Ends p token entered (throws e, t) h = caught-Ends p token entered e t
catching-Ends p token entered (out_of_fuel, t) h = h

after_processor-Ends :
    (p : Params) (token : String) (entered : Bool) (r : Result Value) (t : Tick)
    → Ends r
    → Ends (after_processor p token entered r t).0
unfolding after_processor
after_processor-Ends p token entered (ok v) t h =
    catching-Ends p token entered _ (finish-Ends p token entered v t)
after_processor-Ends p token entered (throws e) t h = caught-Ends p token entered e t
after_processor-Ends p token entered out_of_fuel t h = h

proceed-Ends :
    (p : Params) (token : String) (x : Program) (i : InstanceState) (o : Option RunOutcome)
    (t : Tick)
    → Ends (proceed p token x i o t).0
unfolding proceed bullmq_durable.Runtime.Run.execute
proceed-Ends p token x i (some o) t = tt
proceed-Ends p token x i none t =
    after_processor-Ends p token _ _ _ (run_program-Ends (deps_of p) x t)

deliver-Ends :
    (p : Params) (r : Result TickResult) (t : Tick) → Ends r → Ends (deliver p r t).outcome
unfolding deliver suspend
deliver-Ends p (ok (ended o)) t h = tt
deliver-Ends p (ok (yield_pending r)) t h = tt
deliver-Ends p (throws e) t h = tt
deliver-Ends p out_of_fuel t h = h

after_acquire-Ends :
    (p : Params) (token : String) (x : Program) (t : Tick) (a : Bool × Store)
    → Ends (after_acquire p token x t a).outcome
unfolding after_acquire run_locked begun suspend
after_acquire-Ends p token x t (false, s) = tt
after_acquire-Ends p token x t (true, s) = deliver-Ends p _ _ (proceed-Ends p token x _ _ _)

-- A delivery of a run's job ends, whatever the processor, its step bodies, the `onFailure` handler,
-- the compensations and the store: no loop of the tick uses up the fuel that the model gives it.
pub run-Ends :
    (p : Params) (token : String) (processor : Program) (now : ℕ) (s : Store)
    → Ends (run p token processor now s).outcome
unfolding run
run-Ends p token processor now s = after_acquire-Ends p token processor _ _
