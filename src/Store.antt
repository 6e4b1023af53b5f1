-- ===== src/Store.antt =====
-- store/memory-store.ts: the state of `MemoryStateStore`. Its operations stand in `Instances`,
-- `Steps`, `Locks` and `Admin`. A method takes the store and returns the new one with its result;
-- the clock reads of one call are one argument, `now`. `Redis` models store/redis-store.ts.
pub mod Instances
pub mod Steps
pub mod Locks
pub mod Admin
pub mod Fence
pub mod Mutex
pub mod Begin
use bullmq_durable.Base.{ℕ, String, Option, List, [], none, some}
use bullmq_durable.Base.Dict.{Dict, lookup, insert}
use bullmq_durable.Value.{clone_value}
use bullmq_durable.Types.{InstanceState, StepState}

pub record InstanceRecord : Type 0 where
  pub instance : InstanceState
  pub steps : Dict StepState
  pub terminal_at : Option ℕ

pub record LockRecord : Type 0 where
  pub token : String
  pub expires_at : ℕ

pub record Store : Type 0 where
  pub records : Dict InstanceRecord
  pub locks : Dict LockRecord
  pub registered_queues : List String

unfoldable pub empty : Store
empty = record { records = []; locks = []; registered_queues = [] }

-- `cloneValue` of an instance and of a step: their values go through JSON.
unfoldable pub clone_instance : InstanceState → InstanceState
clone_instance i = record i { input = clone_value i.input; output = clone_value i.output }

unfoldable pub clone_step : StepState → StepState
clone_step s = record s { result = clone_value s.result }

-- `const record = this.records.get(id); if (!record) return; record.… = …`.
unfoldable pub update_record : (InstanceRecord → InstanceRecord) → String → Store → Store
update_record f id s = elim (lookup id s.records) [
  | none ↦ s
  | some r ↦ record s { records = insert id (f r) s.records }
]
