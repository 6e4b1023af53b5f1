-- ===== src/Runtime/Rollbacks.antt =====
-- Per-step compensation (execution/runtime.ts): `runRollbacks`.
use bullmq_durable.Base.{
  ◌||◌, none, some, List, [], ◌∷◌, ◌++◌, length, leb, if◌then◌else◌, or_else, coalesce,
}
use bullmq_durable.Value.{Value}
use bullmq_durable.Errors.{Thrown, serialize_error, is_yield, is_cancelled}
use bullmq_durable.Types.{CompensationReport, compensation}
use bullmq_durable.Result.{Result, ok, throws, out_of_fuel}
use bullmq_durable.Duration.{text}
use bullmq_durable.Retry.{RetryOptions, whole, exponential, options}
use bullmq_durable.Executor.{StepOptions, RegisteredRollback, Action, log, comp_start, comp_step}
use bullmq_durable.Executor.Attempt.{compact_error}
use bullmq_durable.Executor.Step.{execute}
use bullmq_durable.Runtime.{Params, deps_of}

-- `DEFAULT_ROLLBACK_RETRY`.
abbrev pub default_rollback_retry : RetryOptions
default_rollback_retry = record {
  attempts = some (whole 5);
  backoff = some (options (some exponential) (some (text "1s")) none (some (text "30s")));
  delay = none;
  max_delay = none;
}

-- `[...registered].sort((a, b) => b.seq - a.seq)`, which is stable.
unfoldable pub insert_rollback :
    RegisteredRollback → List RegisteredRollback → List RegisteredRollback
insert_rollback x [] = x ∷ []
insert_rollback x (y ∷ ys) =
    let rest = insert_rollback x ys in if leb y.seq x.seq then x ∷ y ∷ ys else y ∷ rest

unfoldable pub sort_rollbacks : List RegisteredRollback → List RegisteredRollback
unfolding insert_rollback
sort_rollbacks [] = []
sort_rollbacks (x ∷ xs) = insert_rollback x (sort_rollbacks xs)

abbrev pub rollback_options : Params → RegisteredRollback → StepOptions
rollback_options p rb = record {
  retry = some (or_else (coalesce rb.retry p.default_rollback_retry) default_rollback_retry);
  on_rollback = none;
}

-- A compensation is done or, unless it yields or is cancelled, its failure is recorded; then the
-- next one is run.
unfoldable pub after_rollback :
    RegisteredRollback
    → CompensationReport
    → (CompensationReport → Action CompensationReport)
    → Result Value
    → Action CompensationReport
after_rollback rb report next (ok v) t =
    next (record report { rolled_back = report.rolled_back ++ rb.key ∷ [] })
      (log (comp_step rb.key none) t)
after_rollback rb report next (throws e) t =
    if is_yield e || is_cancelled e
    then (throws e, t)
    else next
        (record report {
          failed = report.failed ++ record { key = rb.key; error = serialize_error e } ∷ [];
        })
        (log (comp_step rb.key (some (compact_error e))) t)
after_rollback rb report next out_of_fuel t = (out_of_fuel, t)

unfoldable pub roll_back :
    Params → Thrown → List RegisteredRollback → CompensationReport → Action CompensationReport
roll_back p e [] report t = (ok report, t)
roll_back p e (rb ∷ rest) report t =
    let (r, u) = execute (deps_of p) rb.key (rollback_options p rb) (rb.handler rb.output e) t in
    after_rollback rb report (λ report'. roll_back p e rest report') r u

abbrev pub empty_report : CompensationReport
empty_report = record { rolled_back = []; failed = [] }

unfoldable pub roll_back_registered :
    Params → Thrown → List RegisteredRollback → Action CompensationReport
roll_back_registered p e [] t = (ok empty_report, t)
roll_back_registered p e (rb ∷ rbs) t =
    roll_back p e (sort_rollbacks (rb ∷ rbs)) empty_report
      (record (log (comp_start (length (rb ∷ rbs))) t) { active_phase = compensation })

-- `runRollbacks`.
unfoldable pub run_rollbacks : Params → Thrown → Action CompensationReport
run_rollbacks p e t = roll_back_registered p e t.rollbacks t
