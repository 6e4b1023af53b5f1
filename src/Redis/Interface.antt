-- ===== src/Redis/Interface.antt =====
-- `StateStore` of store/state-store.ts, as far as instances, steps by their keys and locks are
-- concerned, and its two implementations: store/memory-store.ts and store/redis-store.ts. `getSteps`,
-- `removeInstances` and the listings are left out. A method takes the time of the call and the store.
use bullmq_durable.Base.{ℕ, String, Option, Bool, List}
use bullmq_durable.Value.{Value}
use bullmq_durable.Errors.{Thrown}
use bullmq_durable.Types.{InstanceState, StepState}
use bullmq_durable.Store.{Store}
use bullmq_durable.Store.Instances.{InitInstanceInput, InstancePatch, InstanceField}
use bullmq_durable.Store.Steps.{BeginStepInit, BeginStepResult, StepPatch}
use bullmq_durable.Redis.{Redis}
use bullmq_durable.Store.Instances
use bullmq_durable.Store.Steps
use bullmq_durable.Store.Locks
use bullmq_durable.Redis.Lifecycle
use bullmq_durable.Redis.Checkpoints
use bullmq_durable.Redis.Advisory

pub record StateStore (S : Type 0) : Type 0 where
  pub init_instance : InitInstanceInput → ℕ → S → InstanceState × S
  pub get_instance : String → ℕ → S → Option InstanceState
  pub get_instances : List String → ℕ → S → List (Option InstanceState)
  pub update_instance : String → InstancePatch → ℕ → S → Option InstanceState × S
  pub complete_instance : String → Value → Option String → ℕ → S → Bool × S
  pub fail_instance : String → Thrown → Option String → ℕ → S → Bool × S
  pub compensation_failed_instance : String → Thrown → Option String → ℕ → S → Bool × S
  pub cancel_instance : String → Option String → ℕ → S → Bool × S
  pub begin_step : String → String → BeginStepInit → ℕ → S → BeginStepResult × S
  pub get_step : String → String → ℕ → S → Option StepState
  pub save_step : String → String → StepState → ℕ → S → S
  pub update_step : String → String → StepPatch → ℕ → S → S
  pub remove_steps : String → List String → ℕ → S → S
  pub clear_instance_fields : String → List InstanceField → ℕ → S → S
  pub acquire_lock : String → String → ℕ → ℕ → S → Bool × S
  pub renew_lock : String → String → ℕ → ℕ → S → Bool × S
  pub release_lock : String → String → ℕ → S → S
  pub held_locks : List String → ℕ → S → List String

-- `MemoryStateStore`.
unfoldable pub memory_state_store : StateStore Store
memory_state_store = record {
  init_instance = Instances.init_instance;
  get_instance = λ id now. Instances.get_instance id;
  get_instances = λ ids now. Instances.get_instances ids;
  update_instance = Instances.update_instance;
  complete_instance = Instances.complete_instance;
  fail_instance = Instances.fail_instance;
  compensation_failed_instance = Instances.compensation_failed_instance;
  cancel_instance = Instances.cancel_instance;
  begin_step = λ id key init now. Steps.begin_step id key init;
  get_step = λ id key now. Steps.get_step id key;
  save_step = λ id key st now. Steps.save_step id key st;
  update_step = λ id key p now. Steps.update_step id key p;
  remove_steps = λ id keys now. Steps.remove_steps id keys;
  clear_instance_fields = λ id fields now. Instances.clear_instance_fields id fields;
  acquire_lock = Locks.acquire_lock;
  renew_lock = Locks.renew_lock;
  release_lock = λ id token now. Locks.release_lock id token;
  held_locks = Locks.held_locks;
}

-- `RedisStateStore`.
unfoldable pub redis_state_store : StateStore Redis
redis_state_store = record {
  init_instance = Lifecycle.init_instance;
  get_instance = λ id now. Lifecycle.get_instance id;
  get_instances = λ ids now. Lifecycle.get_instances ids;
  update_instance = Lifecycle.update_instance;
  complete_instance = Lifecycle.complete_instance;
  fail_instance = Lifecycle.fail_instance;
  compensation_failed_instance = Lifecycle.compensation_failed_instance;
  cancel_instance = Lifecycle.cancel_instance;
  begin_step = λ id key init now. Checkpoints.begin_step id key init;
  get_step = λ id key now. Checkpoints.get_step id key;
  save_step = λ id key st now. Checkpoints.save_step id key st;
  update_step = λ id key p now. Checkpoints.update_step id key p;
  remove_steps = λ id keys now. Checkpoints.remove_steps id keys;
  clear_instance_fields = λ id fields now. Lifecycle.clear_instance_fields id fields;
  acquire_lock = Advisory.acquire_lock;
  renew_lock = Advisory.renew_lock;
  release_lock = Advisory.release_lock;
  held_locks = Advisory.held_locks;
}
