-- ===== src/Phase.antt =====
-- execution/phase.ts: a phase is a prefix of the storage key. And the keys of utils/keys.ts that
-- the modelled parts use.
pub mod Keys
use bullmq_durable.Base.{String, ◌+++◌, ℕ, or_else}
use bullmq_durable.Types.{StepPhase, StepState, main, compensation, failure}
use bullmq_durable.Errors.{decimal}

-- `storageKeyForPhase`.
unfoldable pub storage_key_for_phase : StepPhase → String → String
storage_key_for_phase compensation key = "__rollback__:" +++ key
storage_key_for_phase failure key = "__failure__:" +++ key
storage_key_for_phase main key = key

-- `storageKeyOfStep`.
unfoldable pub storage_key_of_step : StepState → String
storage_key_of_step s = storage_key_for_phase (or_else s.phase main) s.key

-- `createInstanceId`.
unfoldable pub create_instance_id : String → String → String
create_instance_id queue_name job_id = queue_name +++ (":" +++ job_id)

-- `resumeJobId`.
unfoldable pub resume_job_id : String → ℕ → String
resume_job_id original_job_id resume_seq = original_job_id +++ (":resume:" +++ decimal resume_seq)
