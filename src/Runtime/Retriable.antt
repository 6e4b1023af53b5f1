-- ===== src/Runtime/Retriable.antt =====
-- When a delivery leaves its error to BullMQ.
use bullmq_durable.Value.{Value}
use mathlib.Core.Path.{subst}
use bullmq_durable.Runtime.Run.{
  unrecoverable, after_acquire, after_processor, begun, catching, caught, complete_result, deliver,
  finish, leaves_to_bullmq, outcome_of, proceed, run, run_locked, suspend,
}
use bullmq_durable.Store.{Store}
use bullmq_durable.Runtime.Fails.{Permitted, caught-Permitted, sequence-Permitted}
use bullmq_durable.Result.{Result, ok, out_of_fuel, throws}
use bullmq_durable.Executor.{Tick, normal}
use bullmq_durable.Errors.{Thrown, is_step_failure}
use bullmq_durable.Base.{arith, Bool, Option, String, false, none, some, true, ℕ, ◌<◌, ◌≡◌}
use bullmq_durable.Runtime.{
  Params, Program, TickResult, attempts_total, ended, job_attempt, yield_pending, RunOutcome,
}
use bullmq_durable.Types.{InstanceState, InstanceStatus}

-- The tick ends in `retriable` only if BullMQ is to try again.
abbrev Licensed : Params → Result TickResult → Type 0
Licensed p (ok (ended (RunOutcome.retriable e))) = leaves_to_bullmq p e ≡ true
Licensed p _ = Unit

Permitted-Licensed : (p : Params) (r : Result TickResult) → Permitted p r → Licensed p r
Permitted-Licensed p (ok (ended (RunOutcome.completed v))) h = tt
Permitted-Licensed p (ok (ended (RunOutcome.retriable e))) h = h
Permitted-Licensed p (ok (ended RunOutcome.suspended)) h = tt
Permitted-Licensed p (ok (ended (RunOutcome.failed e))) h = tt
Permitted-Licensed p (ok (ended RunOutcome.cancelled)) h = tt
Permitted-Licensed p (ok (yield_pending x)) h = tt
Permitted-Licensed p (throws e) h = tt
Permitted-Licensed p out_of_fuel h = tt

caught-Licensed :
    (p : Params) (token : String) (entered : Bool) (e : Thrown) (t : Tick)
    → Licensed p (caught p token entered e t).0
caught-Licensed p token entered e t = Permitted-Licensed p _ (caught-Permitted p token entered e t)

complete_result-Licensed :
    (p : Params) (v : Value) (x : Bool × Store) (t : Tick) → Licensed p (complete_result v x t).0
unfolding complete_result
complete_result-Licensed p v (true, s) t = tt
complete_result-Licensed p v (false, s) t = tt

finish-Licensed :
    (p : Params) (token : String) (entered : Bool) (v : Value) (t : Tick)
    → Licensed p (finish p token entered v t).0
unfolding finish
finish-Licensed p token true v t = Permitted-Licensed p _ (sequence-Permitted p token _ t)
finish-Licensed p token false v t = complete_result-Licensed p v _ t

catching-Licensed :
    (p : Params) (token : String) (entered : Bool) (x : Result TickResult × Tick)
    → Licensed p x.0
    → Licensed p (catching p token entered x).0
unfolding catching
catching-Licensed p token entered (ok r, t) h = h
catching-Licensed p token entered (throws e, t) h = caught-Licensed p token entered e t
catching-Licensed p token entered (out_of_fuel, t) h = h

after_processor-Licensed :
    (p : Params) (token : String) (entered : Bool) (r : Result Value) (t : Tick)
    → Licensed p (after_processor p token entered r t).0
unfolding after_processor
after_processor-Licensed p token entered (ok v) t =
    catching-Licensed p token entered _ (finish-Licensed p token entered v t)
after_processor-Licensed p token entered (throws e) t = caught-Licensed p token entered e t
after_processor-Licensed p token entered out_of_fuel t = tt

abbrev Stored : Params → Option RunOutcome → Type 0
Stored p none = Unit
Stored p (some o) = Licensed p (ok (ended o))

outcome_of-Stored :
    (p : Params) (st : InstanceStatus) (i : InstanceState) → Stored p (outcome_of st i)
unfolding outcome_of
outcome_of-Stored p InstanceStatus.completed i = tt
outcome_of-Stored p InstanceStatus.failed i = tt
outcome_of-Stored p InstanceStatus.compensation_failed i = tt
outcome_of-Stored p InstanceStatus.cancelled i = tt
outcome_of-Stored p InstanceStatus.running i = tt
outcome_of-Stored p InstanceStatus.yielded i = tt
outcome_of-Stored p InstanceStatus.compensating i = tt

proceed-Licensed :
    (p : Params) (token : String) (x : Program) (i : InstanceState) (o : Option RunOutcome)
    (t : Tick)
    → Stored p o
    → Licensed p (proceed p token x i o t).0
unfolding proceed bullmq_durable.Runtime.Run.execute
proceed-Licensed p token x i (some o) t h = h
proceed-Licensed p token x i none t h = after_processor-Licensed p token _ _ _

deliver-retriable :
    (p : Params) (r : Result TickResult) (t : Tick) {e : Thrown}
    → Licensed p r
    → (deliver p r t).outcome ≡ ok (RunOutcome.retriable e)
    → leaves_to_bullmq p e ≡ true
unfolding deliver suspend
deliver-retriable p (ok (ended o)) t {e} h q =
    let same : o ≡ RunOutcome.retriable e = cc in subst (λ y. Licensed p (ok (ended y))) same h
deliver-retriable p (ok (yield_pending x)) t h q = cc
deliver-retriable p (throws x) t h q = cc
deliver-retriable p out_of_fuel t h q = cc

after_acquire-retriable :
    (p : Params) (token : String) (x : Program) (t : Tick) (a : Bool × Store) {e : Thrown}
    → (after_acquire p token x t a).outcome ≡ ok (RunOutcome.retriable e)
    → leaves_to_bullmq p e ≡ true
unfolding after_acquire run_locked begun suspend
after_acquire-retriable p token x t (false, s) q = cc
after_acquire-retriable p token x t (true, s) q =
    deliver-retriable p _ _ (proceed-Licensed p token x _ _ _ (outcome_of-Stored p _ _)) q

-- A delivery hands its error to BullMQ for another attempt only in normal mode, only with attempts
-- of the job left, and never for a settled failure of a step or an error that is unrecoverable.
pub run-retriable :
    (p : Params) (token : String) (processor : Program) (now : ℕ) (s : Store) (e : Thrown)
    → (run p token processor now s).outcome ≡ ok (RunOutcome.retriable e)
    → (p.mode ≡ normal)
      × (is_step_failure e ≡ false)
      × (unrecoverable p e ≡ false)
      × (job_attempt p < attempts_total p)
unfolding run
run-retriable p token processor now s e q = split (after_acquire-retriable p token processor _ _ q)
  where
    split :
        leaves_to_bullmq p e ≡ true
        → (p.mode ≡ normal)
          × (is_step_failure e ≡ false)
          × (unrecoverable p e ≡ false)
          × (job_attempt p < attempts_total p)
    split h = ground (arith, h)
