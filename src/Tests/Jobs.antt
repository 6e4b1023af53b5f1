-- ===== src/Tests/Jobs.antt =====
-- A job of an older version, which carries an envelope, through the worker.
use bullmq_durable.Base.{◌≡◌, refl, none, true, false}
use bullmq_durable.Base.Dict.{lookup, insert}
use bullmq_durable.Value.{num}
use bullmq_durable.Result.{ok}
use bullmq_durable.Envelope.{
  wrap_resume_data, unwrap_resume_data, unwrapped, envelope_of, meta_of, field_at,
}
use bullmq_durable.Store.{clone_instance}
use bullmq_durable.Store.Instances.{
  begin_tick, complete_instance, fenced_out, held_by_other, init_instance, terminal_transition,
}
use bullmq_durable.Store.Locks.{acquire_lock}
use bullmq_durable.Runtime.{RuntimeJob, fresh_tick, returns}
use bullmq_durable.Runtime.Completed.{Completed}
use bullmq_durable.Runtime.Processor.{run_program}
use bullmq_durable.Runtime.Run.{
  after_acquire, after_processor, begun, catching, complete_result, deliver, finish, outcome_of,
  proceed, run, run_locked,
}
use bullmq_durable.Worker.{
  JobResult, WorkerJob, WorkerHandler, WorkerOptions, handle_job, params_of, identity_of, result_of,
  run_outcome_to_return,
}
use bullmq_durable.Worker.Handled.{handle_job-Completed}
use bullmq_durable.Tests.{store}

abbrev legacy_job : WorkerJob
legacy_job = record {
  id = "1:resume:2";
  name = "j";
  data_of =
      wrap_resume_data (num 4)
        (record { instance_id = "i"; original_job_id = "1"; resume_seq = 2 });
  job = record { attempts_made = none; attempts = none; discarded = false; can_move = true };
}

abbrev echo : WorkerHandler
echo = record { processor = λ v. returns v; on_failure = none }

abbrev options : WorkerOptions
options = record {
  queue_name = "q";
  default_retry = none;
  default_rollback_retry = none;
  on_failure = none;
  random = λ n. record { num = 0; den = 0 };
}

echoes : (handle_job options echo legacy_job "w1" 10 store).0 ≡ ok (JobResult.returns (num 4))
unfolding handle_job params_of identity_of result_of run_outcome_to_return wrap_resume_data
    unwrap_resume_data unwrapped envelope_of meta_of field_at run after_acquire acquire_lock
    held_by_other lookup insert run_locked begun proceed init_instance clone_instance begin_tick
    run_program after_processor finish catching complete_result complete_instance
    terminal_transition fenced_out deliver fresh_tick outcome_of bullmq_durable.Runtime.Run.execute
echoes = refl

handle_job-Completed_example :
    Completed "i" (num 4) (handle_job options echo legacy_job "w1" 10 store).1.tick.store
unfolding params_of identity_of wrap_resume_data unwrap_resume_data unwrapped envelope_of meta_of
    field_at
handle_job-Completed_example =
    handle_job-Completed options echo legacy_job "w1" (num 4) 10 store echoes
