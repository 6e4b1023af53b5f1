-- ===== src/Redis/Calls.antt =====
-- The calls of a `StateStore` on instances, steps by their keys and locks, one at a time, and what
-- they answer.
use bullmq_durable.Base.{ℕ, String, Option, Bool, List, [], ◌∷◌, ◌≡◌, ◌≢◌, ◌≤◌, ◌<◌, ◌⊎◌, some}
use bullmq_durable.Base.Dict.{lookup}
use bullmq_durable.Value.{Value, undefined}
use bullmq_durable.Errors.{Thrown}
use bullmq_durable.Types.{InstanceState, StepState}
use bullmq_durable.Store.{Store, InstanceRecord}
use bullmq_durable.Store.Instances.{InitInstanceInput, InstancePatch, InstanceField}
use bullmq_durable.Store.Steps.{BeginStepInit, BeginStepResult, StepPatch}
use bullmq_durable.Redis.Interface.{StateStore, memory_state_store}

pub data StoreCall : Type 0 where
  inits : InitInstanceInput → StoreCall
  gets : String → StoreCall
  gets_many : List String → StoreCall
  updates : String → InstancePatch → StoreCall
  completes : String → Value → Option String → StoreCall
  fails compensation_fails : String → Thrown → Option String → StoreCall
  cancels : String → Option String → StoreCall
  begins_step : String → String → BeginStepInit → StoreCall
  gets_step : String → String → StoreCall
  saves_step : String → String → StepState → StoreCall
  updates_step : String → String → StepPatch → StoreCall
  removes_steps : String → List String → StoreCall
  clears_fields : String → List InstanceField → StoreCall
  acquires renews : String → String → ℕ → StoreCall
  releases : String → String → StoreCall
  asks_held : List String → StoreCall

pub data Reply : Type 0 where
  done : Reply
  instance : InstanceState → Reply
  maybe_instance : Option InstanceState → Reply
  instances : List (Option InstanceState) → Reply
  granted : Bool → Reply
  began : BeginStepResult → Reply
  maybe_step : Option StepState → Reply
  held : List String → Reply

module _ {S : Type 0} (store : StateStore S) where
  unfoldable pub store_call : StoreCall → ℕ → S → Reply × S
  store_call (inits input) now s = let (i, s') = store.init_instance input now s in (instance i, s')
  store_call (gets id) now s = (maybe_instance (store.get_instance id now s), s)
  store_call (gets_many ids) now s = (instances (store.get_instances ids now s), s)
  store_call (updates id p) now s =
      let (i, s') = store.update_instance id p now s in (maybe_instance i, s')
  store_call (completes id output token) now s =
      let (b, s') = store.complete_instance id output token now s in (granted b, s')
  store_call (fails id e token) now s =
      let (b, s') = store.fail_instance id e token now s in (granted b, s')
  store_call (compensation_fails id e token) now s =
      let (b, s') = store.compensation_failed_instance id e token now s in (granted b, s')
  store_call (cancels id token) now s =
      let (b, s') = store.cancel_instance id token now s in (granted b, s')
  store_call (begins_step id key init) now s =
      let (x, s') = store.begin_step id key init now s in (began x, s')
  store_call (gets_step id key) now s = (maybe_step (store.get_step id key now s), s)
  store_call (saves_step id key st) now s = (done, store.save_step id key st now s)
  store_call (updates_step id key p) now s = (done, store.update_step id key p now s)
  store_call (removes_steps id keys) now s = (done, store.remove_steps id keys now s)
  store_call (clears_fields id fields) now s = (done, store.clear_instance_fields id fields now s)
  store_call (acquires id token ttl) now s =
      let (b, s') = store.acquire_lock id token ttl now s in (granted b, s')
  store_call (renews id token ttl) now s =
      let (b, s') = store.renew_lock id token ttl now s in (granted b, s')
  store_call (releases id token) now s = (done, store.release_lock id token now s)
  store_call (asks_held ids) now s = (held (store.held_locks ids now s), s)

  -- A sequence of calls, each with its time: the answers, and the store after the last.
  unfoldable pub store_calls : List (ℕ × StoreCall) → S → List Reply × S
  store_calls [] s = ([], s)
  store_calls ((now, c) ∷ cs) s =
      let (x, s') = store_call c now s in let (xs, end) = store_calls cs s' in (x ∷ xs, end)

-- The calls on which the two stores may differ: `undefined` does not overwrite an output in Redis,
-- a step that is saved for an unknown instance is kept there, and `SET` refuses a time to live of 0.
abbrev pub Fits : StoreCall → Store → Type 0
Fits (completes id output token) s =
    (r : InstanceRecord)
    → lookup id s.records ≡ some r
    → (output ≢ undefined) ⊎ (r.instance.output ≡ undefined)
Fits (saves_step id key st) s = (r : InstanceRecord) × (lookup id s.records ≡ some r)
Fits (acquires id token ttl) s = 0 < ttl
Fits _ s = Unit

-- The times do not go back, and each call fits the store that the calls before it leave.
abbrev pub Fitting : ℕ → List (ℕ × StoreCall) → Store → Type 0
Fitting start [] s = Unit
Fitting start ((now, c) ∷ cs) s =
    (start ≤ now) × (Fits c s × Fitting now cs (store_call memory_state_store c now s).1)
