-- ===== src/Worker/Handled.antt =====
-- What the value that `handleJob` (worker.ts) hands to BullMQ says of the store.
use bullmq_durable.Base.{ℕ, String, ◌≡◌}
use bullmq_durable.Value.{Value}
use bullmq_durable.Store.{Store}
use bullmq_durable.Result.{Result, ok, throws, out_of_fuel}
use bullmq_durable.Runtime.{RunOutcome}
use bullmq_durable.Runtime.Completed.{Completed, run-Completed}
use bullmq_durable.Worker.{
  WorkerOptions, WorkerHandler, WorkerJob, JobResult, handle_job, params_of, result_of,
  run_outcome_to_return,
}

result_of-returns :
    (id : String) (v : Value) (r : Result RunOutcome)
    → result_of id r ≡ ok (JobResult.returns v)
    → r ≡ ok (RunOutcome.completed v)
unfolding result_of run_outcome_to_return
result_of-returns id v (ok (RunOutcome.completed x)) e = cc
result_of-returns id v (ok RunOutcome.suspended) e = cc
result_of-returns id v (ok (RunOutcome.retriable x)) e = cc
result_of-returns id v (ok (RunOutcome.failed x)) e = cc
result_of-returns id v (ok RunOutcome.cancelled) e = cc
result_of-returns id v (throws x) e = cc
result_of-returns id v out_of_fuel e = cc

-- When a job's processor wrapper returns a value to BullMQ, the store that it leaves holds the
-- instance as completed, with that value up to a clone.
pub handle_job-Completed :
    (o : WorkerOptions) (h : WorkerHandler) (j : WorkerJob) (token : String) (v : Value) (now : ℕ)
    (s : Store)
    → (handle_job o h j token now s).0 ≡ ok (JobResult.returns v)
    → Completed (params_of o h j).instance_id v (handle_job o h j token now s).1.tick.store
unfolding handle_job
handle_job-Completed o h j token v now s e =
    run-Completed (params_of o h j) token (h.processor (params_of o h j).job_data) v now s
      (result_of-returns _ v _ e)
