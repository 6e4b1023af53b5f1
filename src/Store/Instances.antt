-- ===== src/Store/Instances.antt =====
-- The instance lifecycle of `MemoryStateStore` (store/memory-store.ts).
use bullmq_durable.Base.{
  ℕ, ◌+◌, String, Option, none, some, Bool, true, false, not, ◌&&◌, List, [], ◌∷◌, map, ltb, ◌=s=◌,
  if◌then◌else◌, coalesce, or_else,
}
use bullmq_durable.Base.Dict.{lookup, insert}
use bullmq_durable.Value.{Value, undefined, clone_value}
use bullmq_durable.Errors.{SerializedError, Thrown, serialize_error}
use bullmq_durable.Types.{
  InstanceState, InstanceStatus, CompensationReport, running, completed, failed,
  compensation_failed, cancelled, is_terminal, is_compensating,
}
use bullmq_durable.Store.{Store, InstanceRecord, clone_instance, update_record}

-- `InitInstanceInput` of store/state-store.ts.
pub record InitInstanceInput : Type 0 where
  pub instance_id : String
  pub queue_name : String
  pub job_name : String
  pub job_id : String
  pub input : Value

-- The new state of a non-terminal instance at the start of a tick.
unfoldable pub begin_tick : ℕ → InstanceState → InstanceState
begin_tick now i = record i {
  run_count = i.run_count + 1;
  status = if is_compensating i.status then i.status else running;
  updated_at = now;
}

unfoldable pub fresh_instance : InitInstanceInput → ℕ → InstanceState
fresh_instance input now = record {
  id = input.instance_id;
  queue_name = input.queue_name;
  job_name = input.job_name;
  original_job_id = input.job_id;
  status = running;
  input = clone_value input.input;
  output = undefined;
  error = none;
  failure_error = none;
  failed_step = none;
  compensation = none;
  run_count = 1;
  resume_seq = none;
  step_seq = none;
  created_at = now;
  updated_at = now;
  completed_at = none;
  failed_at = none;
}

-- `initInstance`.
unfoldable pub init_instance : InitInstanceInput → ℕ → Store → InstanceState × Store
init_instance input now s = elim (lookup input.instance_id s.records) [
  | none ↦ (
    clone_instance (fresh_instance input now),
    record s {
      records =
          insert input.instance_id
            (record { instance = fresh_instance input now; steps = []; terminal_at = none })
            s.records;
    },
  )
  | some r ↦ if is_terminal r.instance.status then (clone_instance r.instance, s) else (
    clone_instance (begin_tick now r.instance),
    record s {
      records =
          insert input.instance_id (record r { instance = begin_tick now r.instance }) s.records;
    },
  )
]

-- `getInstance`.
unfoldable pub get_instance : String → Store → Option InstanceState
get_instance id s = elim (lookup id s.records) [
  | none ↦ none
  | some r ↦ some (clone_instance r.instance)
]

-- `getInstances`.
unfoldable pub get_instances : List String → Store → List (Option InstanceState)
get_instances ids s = map (λ id. get_instance id s) ids

-- `Partial<InstanceState>`, with the fields that the callers of `updateInstance` pass.
pub record InstancePatch : Type 0 where
  pub status : Option InstanceStatus
  pub failure_error : Option SerializedError
  pub failed_step : Option String
  pub compensation : Option CompensationReport

abbrev pub no_patch : InstancePatch
no_patch = record { status = none; failure_error = none; failed_step = none; compensation = none }

-- `{ ...instance, ...cloneValue(patch), updatedAt }`: the clone drops the undefined fields.
unfoldable pub patch_instance : InstancePatch → ℕ → InstanceState → InstanceState
patch_instance p now i = record i {
  status = or_else p.status i.status;
  failure_error = coalesce p.failure_error i.failure_error;
  failed_step = coalesce p.failed_step i.failed_step;
  compensation = coalesce p.compensation i.compensation;
  updated_at = now;
}

abbrev patch_ends : Option InstanceStatus → Bool
patch_ends none = false
patch_ends (some st) = is_terminal st

unfoldable pub patch_record : InstancePatch → ℕ → InstanceRecord → InstanceRecord
patch_record p now r = record r {
  instance = patch_instance p now r.instance;
  terminal_at = if patch_ends p.status then some (or_else r.terminal_at now) else r.terminal_at;
}

-- `updateInstance`.
unfoldable pub update_instance : String → InstancePatch → ℕ → Store → Option InstanceState × Store
update_instance id p now s = elim (lookup id s.records) [
  | none ↦ (none, s)
  | some r ↦ (
    some (clone_instance (patch_instance p now r.instance)),
    record s { records = insert id (patch_record p now r) s.records },
  )
]

-- Whether the lock of `id` is held, and not by `token`.
unfoldable pub held_by_other : String → String → ℕ → Store → Bool
held_by_other id token now s = elim (lookup id s.locks) [
  | none ↦ false
  | some l ↦ ltb now l.expires_at && not (l.token =s= token)
]

-- `lockToken !== undefined && lockToken !== ""`, and the lock is another's.
unfoldable pub fenced_out : String → Option String → ℕ → Store → Bool
unfolding held_by_other
fenced_out id none now s = false
fenced_out id (some token) now s = not (token =s= "") && held_by_other id token now s

-- `terminalTransition`.
unfoldable pub terminal_transition :
    String → Option String → (InstanceState → InstanceState) → ℕ → Store → Bool × Store
terminal_transition id lock_token apply now s = elim (lookup id s.records) [
  | none ↦ (false, s)
  | some r ↦ if fenced_out id lock_token now s then (false, s) else (
    true,
    record s {
      records =
          insert id (record r { instance = apply r.instance; terminal_at = some now }) s.records;
    },
  )
]

-- `completeInstance`.
unfoldable pub complete_instance : String → Value → Option String → ℕ → Store → Bool × Store
complete_instance id output lock_token now =
    terminal_transition id lock_token
      (λ i. record i {
        status = completed;
        output = clone_value output;
        completed_at = some now;
        updated_at = now;
      })
      now

-- `failInstance`.
unfoldable pub fail_instance : String → Thrown → Option String → ℕ → Store → Bool × Store
fail_instance id e lock_token now =
    terminal_transition id lock_token
      (λ i. record i {
        status = failed;
        error = some (serialize_error e);
        failed_at = some now;
        updated_at = now;
      })
      now

-- `compensationFailedInstance`.
unfoldable pub compensation_failed_instance :
    String → Thrown → Option String → ℕ → Store → Bool × Store
compensation_failed_instance id e lock_token now =
    terminal_transition id lock_token
      (λ i. record i {
        status = compensation_failed;
        error = some (serialize_error e);
        failed_at = some now;
        updated_at = now;
      })
      now

-- `cancelInstance`.
unfoldable pub cancel_instance : String → Option String → ℕ → Store → Bool × Store
cancel_instance id lock_token now =
    terminal_transition id lock_token (λ i. record i { status = cancelled; updated_at = now }) now

-- The fields that the callers of `clearInstanceFields` name.
pub data InstanceField : Type 0 where
  field_error field_failed_at field_failure_error field_failed_step field_compensation :
      InstanceField

abbrev pub clear_field : InstanceField → InstanceState → InstanceState
clear_field field_error i = record i { error = none }
clear_field field_failed_at i = record i { failed_at = none }
clear_field field_failure_error i = record i { failure_error = none }
clear_field field_failed_step i = record i { failed_step = none }
clear_field field_compensation i = record i { compensation = none }

abbrev pub clear_fields : List InstanceField → InstanceState → InstanceState
clear_fields [] i = i
clear_fields (f ∷ fs) i = clear_fields fs (clear_field f i)

-- `clearInstanceFields`.
unfoldable pub clear_instance_fields : String → List InstanceField → Store → Store
clear_instance_fields id fields =
    update_record (λ r. record r { instance = clear_fields fields r.instance }) id
