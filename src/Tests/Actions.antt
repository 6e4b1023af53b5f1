-- ===== src/Tests/Actions.antt =====
-- The actions of a run at a failed run and a queue that holds its job.
use bullmq_durable.Base.{◌≡◌, refl, String, none, some, List, [], ◌∷◌, ◌=s=◌, not, filter}
use bullmq_durable.Base.Dict.{lookup}
use bullmq_durable.Phase.{storage_key_for_phase, storage_key_of_step, create_instance_id}
use bullmq_durable.Types.{InstanceStatus, StepState}
use bullmq_durable.Store.{InstanceRecord}
use bullmq_durable.Store.Admin.{contains}
use bullmq_durable.Store.Fence.{get_status}
use bullmq_durable.Executor.{Tick}
use bullmq_durable.Executor.Step.{execute}
use bullmq_durable.Executor.Due.{Runs}
use bullmq_durable.Actions.{BullQueue, JobState, World, RunHandle}
use bullmq_durable.Actions.Run.{
  retry_compensation, failed_internal, instance_id_of, retry_run, failed_any,
}
use bullmq_durable.Actions.Guards.{cancels, accepts_found, Guarded, run_action, run_action-Guarded}
use bullmq_durable.Actions.Reset.{Reset, Keyed}
use bullmq_durable.Actions.Retried.{retry_run-Reset, retry_compensation-Reset, retry_run-Runs}
use bullmq_durable.Value.{num}
use bullmq_durable.Inspect.Events.{RunEvent, synthesize_events}
use bullmq_durable.Envelope.{
  unwrap_resume_data, wrap_resume_data, unwrap_resume_data-wrap_resume_data,
}
use bullmq_durable.Tests.{compensation, live, broken, waiting, deps, no_options, seven, tick}

-- A queue as the list of the jobs that it holds, all of them failed.
abbrev job_list : BullQueue (List String)
job_list = record {
  has_job = contains;
  job_state = λ id q. JobState.failed;
  promote = λ id q. (none, q);
  retry = λ id st q. (none, q);
  add = λ name v id q. (none, id ∷ q);
  remove = λ id q. filter (λ x. not (x =s= id)) q;
  append_log = λ id m q. q;
  clean = λ grace limit q. ([], q);
  drain = λ q. [];
  obliterate = λ q. [];
}

abbrev run : RunHandle
run = record { queue_name = "q"; job_id = "1" }

abbrev internal_broken : StepState
internal_broken = record broken { phase = some compensation }

abbrev failed_record : InstanceRecord
failed_record = record live {
  instance = record live.instance { id = "q:1"; status = InstanceStatus.failed };
  steps = ("b", waiting) ∷ ("f", broken) ∷ [];
}

abbrev stuck_record : InstanceRecord
stuck_record = record failed_record {
  instance = record failed_record.instance { status = InstanceStatus.compensation_failed };
  steps = ("b", waiting) ∷ ("__rollback__:f", internal_broken) ∷ [];
}

abbrev world_of : InstanceRecord → World (List String)
world_of r = record {
  store = record { records = ("q:1", r) ∷ []; locks = []; registered_queues = [] };
  bull = "1" ∷ [];
}

abbrev after_retry : Tick
after_retry = record tick { store = (retry_run job_list run 20 (world_of failed_record)).1.store }

failed_Keyed : Keyed failed_record.steps
unfolding storage_key_of_step storage_key_for_phase lookup
failed_Keyed = (refl, (refl, (refl, (refl, tt))))

stuck_Keyed : Keyed stuck_record.steps
unfolding storage_key_of_step storage_key_for_phase lookup
stuck_Keyed = (refl, (refl, (refl, (refl, tt))))

run_action-Guarded_example :
    Guarded
      (accepts_found cancels (get_status (instance_id_of run) (world_of failed_record).store))
      (world_of failed_record)
      (run_action job_list cancels run 20 (world_of failed_record))
run_action-Guarded_example = run_action-Guarded job_list cancels run 20 (world_of failed_record)

retry_run-Reset_example :
    Reset failed_any
      (instance_id_of run)
      InstanceStatus.running
      failed_record.steps
      (retry_run job_list run 20 (world_of failed_record)).1.store
unfolding instance_id_of create_instance_id lookup
retry_run-Reset_example =
    retry_run-Reset job_list run 20 (world_of failed_record) failed_record refl refl failed_Keyed

retry_compensation-Reset_example :
    Reset failed_internal
      (instance_id_of run)
      InstanceStatus.compensating
      stuck_record.steps
      (retry_compensation job_list run 20 (world_of stuck_record)).1.store
unfolding instance_id_of create_instance_id lookup
retry_compensation-Reset_example =
    retry_compensation-Reset job_list run 20 (world_of stuck_record) stuck_record refl refl
      stuck_Keyed

retry_run-Runs_example :
    Runs "f" 1
      (execute (record deps { instance_id = "q:1" }) "f" no_options seven after_retry)
      after_retry
unfolding instance_id_of create_instance_id lookup storage_key_for_phase
retry_run-Runs_example =
    retry_run-Runs job_list run 20 (world_of failed_record) failed_record
      (record deps { instance_id = "q:1" }) "f" no_options seven after_retry broken refl refl
      failed_Keyed refl refl refl refl refl

abbrev timeline : List RunEvent
timeline = synthesize_events (λ n. "") failed_record.instance (waiting ∷ broken ∷ []) []

unwrap_resume_data-wrap_resume_data_example :
    unwrap_resume_data (
      wrap_resume_data
        (num 3)
        (record { instance_id = "q:1"; original_job_id = "1"; resume_seq = 2 }))
    ≡ (some (record { instance_id = "q:1"; original_job_id = "1"; resume_seq = 2 }), num 3)
unwrap_resume_data-wrap_resume_data_example =
    unwrap_resume_data-wrap_resume_data (num 3)
      (record { instance_id = "q:1"; original_job_id = "1"; resume_seq = 2 })
