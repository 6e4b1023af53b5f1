-- ===== src/Redis/Checkpoints.antt =====
-- The steps of an instance in `RedisStateStore` (store/redis-store.ts). A field of a steps hash
-- holds the JSON text of a step, which is the step with its result cloned.
use bullmq_durable.Base.{ℕ, ◌+◌, String, Option, none, some, if◌then◌else◌, List, map, or_else}
use bullmq_durable.Base.Dict.{Dict, lookup, insert}
use bullmq_durable.Types.{StepState, is_cancelled_status, InstanceStatus}
use bullmq_durable.Store.{clone_step}
use bullmq_durable.Store.Steps.{
  BeginStepInit, BeginStepResult, StepPatch, fresh_step, patch_step, sort_steps, missing, cancelled,
  existing, created, remove_keys,
}
use bullmq_durable.Redis.{Redis, Hash, steps_of}
use bullmq_durable.Redis.Lifecycle.{put_hash}

unfoldable pub put_steps : String → Dict StepState → Redis → Redis
put_steps id steps r = record r { steps = insert id steps r.steps }

-- `redis.call('HINCRBY', KEYS[1], 'stepSeq', 1)`.
unfoldable pub hash_seq : Hash → ℕ
hash_seq h = or_else h.step_seq 0 + 1

unfoldable pub seq_hash : ℕ → Hash → Hash
unfolding hash_seq
seq_hash now h = record h { step_seq = some (hash_seq h); updated_at = some now }

unfoldable pub create_step :
    String → String → BeginStepInit → Hash → Option StepState → Redis → BeginStepResult × Redis
create_step id step_key init h (some st) r = (existing st, r)
create_step id step_key init h none r = (
  created (hash_seq h),
  put_hash id (seq_hash init.now h)
      (put_steps id (insert step_key (fresh_step init (hash_seq h)) (steps_of id r)) r),
)

-- `status == false`, `status == 'cancelled'`, or neither.
unfoldable pub begin_live :
    String → String → BeginStepInit → Hash → Option InstanceStatus → Redis → BeginStepResult × Redis
begin_live id step_key init h none r = (missing, r)
begin_live id step_key init h (some st) r =
    if is_cancelled_status st
    then (cancelled, r)
    else create_step id step_key init h (lookup step_key (steps_of id r)) r

-- `BEGIN_STEP_SCRIPT` and `beginStep`.
unfoldable pub begin_step : String → String → BeginStepInit → Redis → BeginStepResult × Redis
begin_step id step_key init r = elim (lookup id r.instances) [
  | none ↦ (missing, r)
  | some h ↦ begin_live id step_key init h h.status r
]

-- `getStep`.
unfoldable pub get_step : String → String → Redis → Option StepState
get_step id step_key r = lookup step_key (steps_of id r)

-- `getSteps`.
unfoldable pub get_steps : String → Redis → List StepState
get_steps id r = sort_steps (map (λ e. e.1) (steps_of id r))

-- `saveStep`.
unfoldable pub save_step : String → String → StepState → Redis → Redis
save_step id step_key st r = put_steps id (insert step_key (clone_step st) (steps_of id r)) r

unfoldable pub update_found : String → String → StepPatch → Option StepState → Redis → Redis
update_found id step_key p none r = r
update_found id step_key p (some st) r = save_step id step_key (patch_step p st) r

-- `updateStep`.
unfoldable pub update_step : String → String → StepPatch → Redis → Redis
update_step id step_key p r = update_found id step_key p (get_step id step_key r) r

-- `removeSteps`.
unfoldable pub remove_steps : String → List String → Redis → Redis
remove_steps id step_keys r = put_steps id (remove_keys step_keys (steps_of id r)) r
