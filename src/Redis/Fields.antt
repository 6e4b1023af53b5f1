-- ===== src/Redis/Fields.antt =====
-- `encodeInstanceFields` and `parseInstance` of store/redis-store.ts, and `HSET`, on what the texts of
-- a hash stand for: Texts has the texts themselves.
use bullmq_durable.Base.{sym, ℕ, String, Option, none, some, ◌≡◌, refl, coalesce, or_else}
use bullmq_durable.Value.{Value, undefined, clone_value, json}
use bullmq_durable.Errors.{SerializedError}
use bullmq_durable.Types.{InstanceState, InstanceStatus, CompensationReport, running}
use bullmq_durable.Store.{clone_instance}
use bullmq_durable.Store.Instances.{InstancePatch}
use bullmq_durable.Redis.{Hash}

-- `Partial<InstanceState>`.
pub record PartialInstance : Type 0 where
  pub id : Option String
  pub queue_name : Option String
  pub job_name : Option String
  pub original_job_id : Option String
  pub status : Option InstanceStatus
  pub input : Value
  pub output : Value
  pub error : Option SerializedError
  pub failure_error : Option SerializedError
  pub failed_step : Option String
  pub compensation : Option CompensationReport
  pub run_count : Option ℕ
  pub step_seq : Option ℕ
  pub created_at : Option ℕ
  pub updated_at : Option ℕ
  pub completed_at : Option ℕ
  pub failed_at : Option ℕ

abbrev pub no_fields : PartialInstance
no_fields = record {
  id = none;
  queue_name = none;
  job_name = none;
  original_job_id = none;
  status = none;
  input = undefined;
  output = undefined;
  error = none;
  failure_error = none;
  failed_step = none;
  compensation = none;
  run_count = none;
  step_seq = none;
  created_at = none;
  updated_at = none;
  completed_at = none;
  failed_at = none;
}

-- `if (value !== undefined) out.push(key, JSON.stringify(value))`.
unfoldable pub encode_value : Value → Option Value
encode_value undefined = none
encode_value v = some (json v)

-- `encodeInstanceFields`: `resumeSeq` is never written.
unfoldable pub encode_instance_fields : PartialInstance → Hash
encode_instance_fields p = record {
  id = p.id;
  queue_name = p.queue_name;
  job_name = p.job_name;
  original_job_id = p.original_job_id;
  status = p.status;
  input = encode_value p.input;
  output = encode_value p.output;
  error = p.error;
  failure_error = p.failure_error;
  failed_step = p.failed_step;
  compensation = p.compensation;
  run_count = p.run_count;
  resume_seq = none;
  step_seq = p.step_seq;
  created_at = p.created_at;
  updated_at = p.updated_at;
  completed_at = p.completed_at;
  failed_at = p.failed_at;
}

-- `HSET` of the pairs `new`.
unfoldable pub hset : Hash → Hash → Hash
hset new old = record {
  id = coalesce new.id old.id;
  queue_name = coalesce new.queue_name old.queue_name;
  job_name = coalesce new.job_name old.job_name;
  original_job_id = coalesce new.original_job_id old.original_job_id;
  status = coalesce new.status old.status;
  input = coalesce new.input old.input;
  output = coalesce new.output old.output;
  error = coalesce new.error old.error;
  failure_error = coalesce new.failure_error old.failure_error;
  failed_step = coalesce new.failed_step old.failed_step;
  compensation = coalesce new.compensation old.compensation;
  run_count = coalesce new.run_count old.run_count;
  resume_seq = coalesce new.resume_seq old.resume_seq;
  step_seq = coalesce new.step_seq old.step_seq;
  created_at = coalesce new.created_at old.created_at;
  updated_at = coalesce new.updated_at old.updated_at;
  completed_at = coalesce new.completed_at old.completed_at;
  failed_at = coalesce new.failed_at old.failed_at;
}

-- `parseInstance`.
unfoldable pub parse_instance : Hash → InstanceState
parse_instance h = record {
  id = or_else h.id "";
  queue_name = or_else h.queue_name "";
  job_name = or_else h.job_name "";
  original_job_id = or_else h.original_job_id "";
  status = or_else h.status running;
  input = or_else h.input undefined;
  output = or_else h.output undefined;
  error = h.error;
  failure_error = h.failure_error;
  failed_step = h.failed_step;
  compensation = h.compensation;
  run_count = or_else h.run_count 0;
  resume_seq = h.resume_seq;
  step_seq = h.step_seq;
  created_at = or_else h.created_at 0;
  updated_at = or_else h.updated_at 0;
  completed_at = h.completed_at;
  failed_at = h.failed_at;
}

-- A whole instance as a patch.
unfoldable pub all_fields : InstanceState → PartialInstance
all_fields i = record {
  id = some i.id;
  queue_name = some i.queue_name;
  job_name = some i.job_name;
  original_job_id = some i.original_job_id;
  status = some i.status;
  input = i.input;
  output = i.output;
  error = i.error;
  failure_error = i.failure_error;
  failed_step = i.failed_step;
  compensation = i.compensation;
  run_count = some i.run_count;
  step_seq = i.step_seq;
  created_at = some i.created_at;
  updated_at = some i.updated_at;
  completed_at = i.completed_at;
  failed_at = i.failed_at;
}

-- The patch of `updateInstance` as the callers pass it.
unfoldable pub partial_of : InstancePatch → PartialInstance
partial_of p = record no_fields {
  status = p.status;
  failure_error = p.failure_error;
  failed_step = p.failed_step;
  compensation = p.compensation;
}

pub or_else-encode_value : (v : Value) → or_else (encode_value v) undefined ≡ clone_value v
unfolding encode_value clone_value json
or_else-encode_value undefined = refl
or_else-encode_value v = refl

-- What is written of an instance and read again is the instance, up to a clone of its input and
-- output, if it has no `resumeSeq`.
pub parse_instance-encode_instance_fields :
    (i : InstanceState)
    → i.resume_seq ≡ none
    → parse_instance (encode_instance_fields (all_fields i)) ≡ clone_instance i
unfolding parse_instance encode_instance_fields all_fields clone_instance
parse_instance-encode_instance_fields i h = λ k. record i {
  input = or_else-encode_value i.input k;
  output = or_else-encode_value i.output k;
  resume_seq = sym h k;
}
