-- ===== src/Runtime/Fails.antt =====
-- What the terminal-failure sequence and the `catch` of a tick end in: never `completed`, and
-- `retriable` only for an error that is left to BullMQ.
use bullmq_durable.Base.{
  refl, ◌≡◌, is_some, Bool, Option, String, false, if◌then◌else◌, none, not, some, true, ◌&&◌,
}
use bullmq_durable.Types.{CompensationReport}
use bullmq_durable.Runtime.{
  yield_pending, Value, RunOutcome, FailureInfo, Params, Program, TickResult, ended,
}
use bullmq_durable.Store.{Store}
use bullmq_durable.Runtime.Run.{caught, fail_fast, leaves_to_bullmq}
use bullmq_durable.Runtime.Failure.{
  after_handler, after_rollbacks, cancel, handle_failure, interrupted, is_empty,
  run_failure_sequence, settle_by, settle_result, settle_terminal, yield_with,
}
use bullmq_durable.Result.{Result, ok, out_of_fuel, throws}
use bullmq_durable.Executor.{Action, Tick}
use bullmq_durable.Errors.{Thrown, is_cancelled, is_settle_incomplete, is_yield}

-- The tick ends neither in `completed` nor in `retriable`.
abbrev pub Fails : Result TickResult → Type 0
Fails (ok (ended (RunOutcome.completed v))) = ⊥
Fails (ok (ended (RunOutcome.retriable e))) = ⊥
Fails _ = Unit

if_Fails :
    (b : Bool) (x y : Result TickResult × Tick)
    → Fails x.0
    → Fails y.0
    → Fails (if b then x else y).0
if_Fails true x y h k = h
if_Fails false x y h k = k

settle_result-Fails : (e : Thrown) (x : Bool × Store) (t : Tick) → Fails (settle_result e x t).0
unfolding settle_result
settle_result-Fails e (true, s) t = tt
settle_result-Fails e (false, s) t = tt

settle_by-Fails :
    (b : Bool) (p : Params) (token : String) (e : Thrown) (t : Tick)
    → Fails (settle_by b p token e t).0
unfolding settle_by
settle_by-Fails true p token e t = settle_result-Fails e _ t
settle_by-Fails false p token e t = settle_result-Fails e _ t

interrupted-Fails :
    (p : Params) (token reason : String) (rest : Action TickResult) (e : Thrown) (t : Tick)
    → Fails (rest t).0
    → Fails (interrupted p token reason rest e t).0
unfolding interrupted yield_with cancel
interrupted-Fails p token reason rest e t h =
    if_Fails (is_yield e) _ _ tt (if_Fails (is_cancelled e) _ _ tt h)

settle_terminal-Fails :
    (p : Params) (token : String) (e : Thrown) (report : CompensationReport) (t : Tick)
    → Fails (settle_terminal p token e report t).0
unfolding settle_terminal
settle_terminal-Fails p token e report t = settle_by-Fails _ p token e _

after_handler-Fails :
    (p : Params) (token : String) (e : Thrown) (report : CompensationReport) (r : Result Value)
    (t : Tick)
    → Fails (after_handler p token e report r t).0
unfolding after_handler
after_handler-Fails p token e report (ok v) t = settle_terminal-Fails p token e report t
after_handler-Fails p token e report (throws x) t =
    interrupted-Fails p token _ _ x t (settle_terminal-Fails p token e report t)
after_handler-Fails p token e report out_of_fuel t = tt

handle_failure-Fails :
    (p : Params) (token : String) (e : Thrown) (failed_step : Option String)
    (report : CompensationReport) (h : Option (FailureInfo → Program)) (t : Tick)
    → Fails (handle_failure p token e failed_step report h t).0
unfolding handle_failure
handle_failure-Fails p token e failed_step report none t = settle_terminal-Fails p token e report t
handle_failure-Fails p token e failed_step report (some h) t =
    after_handler-Fails p token e report _ _

after_rollbacks-Fails :
    (p : Params) (token : String) (e : Thrown) (failed_step : Option String)
    (r : Result CompensationReport) (t : Tick)
    → Fails (after_rollbacks p token e failed_step r t).0
unfolding after_rollbacks
after_rollbacks-Fails p token e failed_step (ok report) t =
    handle_failure-Fails p token e failed_step report p.on_failure t
after_rollbacks-Fails p token e failed_step (throws x) t = interrupted-Fails p token _ _ x t tt
after_rollbacks-Fails p token e failed_step out_of_fuel t = tt

run_failure_sequence-Fails :
    (p : Params) (token : String) (e : Thrown) (t : Tick)
    → Fails (run_failure_sequence p token e t).0
unfolding run_failure_sequence
run_failure_sequence-Fails p token e t = after_rollbacks-Fails p token _ _ _ _

-- The tick does not end in `completed`, and in `retriable` only if BullMQ is to try again.
abbrev pub Permitted : Params → Result TickResult → Type 0
Permitted p (ok (ended (RunOutcome.completed v))) = ⊥
Permitted p (ok (ended (RunOutcome.retriable e))) = leaves_to_bullmq p e ≡ true
Permitted p _ = Unit

Fails-Permitted : (p : Params) (r : Result TickResult) → Fails r → Permitted p r
Fails-Permitted p (ok (ended (RunOutcome.completed v))) h = h
Fails-Permitted p (ok (ended (RunOutcome.retriable e))) h = absurd h
Fails-Permitted p (ok (ended RunOutcome.suspended)) h = tt
Fails-Permitted p (ok (ended (RunOutcome.failed e))) h = tt
Fails-Permitted p (ok (ended RunOutcome.cancelled)) h = tt
Fails-Permitted p (ok (yield_pending x)) h = tt
Fails-Permitted p (throws e) h = tt
Fails-Permitted p out_of_fuel h = tt

if_Permitted :
    (p : Params) (b : Bool) (x y : Result TickResult × Tick)
    → (b ≡ true → Permitted p x.0)
    → Permitted p y.0
    → Permitted p (if b then x else y).0
if_Permitted p true x y h k = h refl
if_Permitted p false x y h k = k

pub sequence-Permitted :
    (p : Params) (token : String) (e : Thrown) (t : Tick)
    → Permitted p (run_failure_sequence p token e t).0
sequence-Permitted p token e t =
    Fails-Permitted p (run_failure_sequence p token e t).0 (run_failure_sequence-Fails p token e t)

pub caught-Permitted :
    (p : Params) (token : String) (entered : Bool) (e : Thrown) (t : Tick)
    → Permitted p (caught p token entered e t).0
unfolding caught yield_with cancel fail_fast
caught-Permitted p token entered e t =
    if_Permitted p (is_yield e) _ _ (λ q. tt)
      (if_Permitted p (is_cancelled e) _ _ (λ q. tt)
        (if_Permitted p (is_settle_incomplete e) _ _ (λ q. sequence-Permitted p token _ t)
          (if_Permitted p entered _ _ (λ q. sequence-Permitted p token _ t)
            (if_Permitted p (leaves_to_bullmq p e) _ _ (λ left. left)
              (if_Permitted p (is_empty t.rollbacks && not (is_some p.on_failure)) _ _ (λ q. tt)
                (sequence-Permitted p token e t))))))
