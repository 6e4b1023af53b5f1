-- ===== src/Runtime/Processor.antt =====
-- The processor's calls of `ctx.step` and `ctx.sleep` (execution/context.ts), in the order that it
-- makes them.
use bullmq_durable.Value.{Value, undefined}
use bullmq_durable.Result.{Result, ok, throws, out_of_fuel}
use bullmq_durable.Executor.{Deps, Action, Outcome, returned, raised}
use bullmq_durable.Executor.Step.{execute}
use bullmq_durable.Executor.Sleep.{sleep_for}
use bullmq_durable.Runtime.{Program, returns, raises, step_then, sleep_then}

-- The processor goes on with what a call ended in.
unfoldable pub answer {ℓ} :
    {A : Type ℓ} → (A → Value) → (Outcome → Action Value) → Result A → Action Value
answer value next (ok v) t = next (returned (value v)) t
answer value next (throws e) t = next (raised e) t
answer value next out_of_fuel t = (out_of_fuel, t)

-- `processor(job, ctx)`.
unfoldable pub run_program : Deps → Program → Action Value
run_program d (returns v) t = (ok v, t)
run_program d (raises e) t = (throws e, t)
run_program d (step_then key options fn next) t =
    let (r, u) = execute d key options fn t in answer (λ v. v) (λ o. run_program d (next o)) r u
run_program d (sleep_then key delay_ms next) t =
    let (r, u) = sleep_for d key delay_ms t in
    answer (λ _. undefined) (λ o. run_program d (next o)) r u
