-- ===== src/Redis/Refines.antt =====
-- The two implementations of `StateStore` agree: store/redis-store.ts against store/memory-store.ts.
pub mod Known
pub mod Settles
pub mod Instances
pub mod Steps
pub mod Locks
use bullmq_durable.Base.{ℕ, ◌≡◌, refl, ap, ◌∙◌, List, [], ◌∷◌, some}
use bullmq_durable.Base.Dict.{lookup}
use bullmq_durable.Store.Steps.{clone_found}
use bullmq_durable.Store.{Store, empty}
use bullmq_durable.Redis.{Redis, no_keys, live, get_lock, steps_of}
use bullmq_durable.Redis.Interface.{memory_state_store, redis_state_store}
use bullmq_durable.Redis.Calls.{
  StoreCall, Reply, Fits, Fitting, store_call, store_calls, inits, gets, gets_many, updates,
  completes, fails, compensation_fails, cancels, begins_step, gets_step, saves_step, updates_step,
  removes_steps, clears_fields, acquires, renews, releases, asks_held, done, instance,
  maybe_instance, instances, granted, began, maybe_step, held,
}
use bullmq_durable.Redis.Matches.{Matches, Matches-later}
use bullmq_durable.Redis.Refines.Known.{Simulates}
use bullmq_durable.Redis.Refines.Instances.{
  init_instance-Simulates, get_instance-Simulates, get_instances-Simulates,
  update_instance-Simulates, clear_instance_fields-Simulates,
}
use bullmq_durable.Redis.Refines.Settles.{
  complete_instance-Simulates, fail_instance-Simulates, compensation_failed_instance-Simulates,
  cancel_instance-Simulates,
}
use bullmq_durable.Redis.Refines.Steps.{
  begin_step-Simulates, get_step-Simulates, save_step-Simulates, update_step-Simulates,
  remove_steps-Simulates,
}
use bullmq_durable.Redis.Refines.Locks.{
  acquire_lock-Simulates, renew_lock-Simulates, release_lock-Simulates, held_locks-Simulates,
}

answers {ℓ} :
    {A : Type ℓ} (reply : A → Reply) (now : ℕ) (f : A × Redis) (g : A × Store)
    → Simulates now f g
    → Simulates now (reply f.0, f.1) (reply g.0, g.1)
answers reply now f g (e, m) = (ap reply e, m)

pub store_call-Simulates :
    (c : StoreCall) (now : ℕ) (r : Redis) (s : Store)
    → Matches now r s
    → Fits c s
    → Simulates now (store_call redis_state_store c now r) (store_call memory_state_store c now s)
unfolding store_call redis_state_store memory_state_store
store_call-Simulates (inits input) now r s m fits =
    answers instance now _ _ (init_instance-Simulates input now r s m)
store_call-Simulates (gets id) now r s m fits =
    (ap maybe_instance (get_instance-Simulates id now r s m), m)
store_call-Simulates (gets_many ids) now r s m fits =
    (ap instances (get_instances-Simulates ids now r s m), m)
store_call-Simulates (updates id p) now r s m fits =
    answers maybe_instance now _ _ (update_instance-Simulates id p now r s m)
store_call-Simulates (completes id output token) now r s m fits =
    answers granted now _ _ (complete_instance-Simulates id output token now r s m fits)
store_call-Simulates (fails id e token) now r s m fits =
    answers granted now _ _ (fail_instance-Simulates id e token now r s m)
store_call-Simulates (compensation_fails id e token) now r s m fits =
    answers granted now _ _ (compensation_failed_instance-Simulates id e token now r s m)
store_call-Simulates (cancels id token) now r s m fits =
    answers granted now _ _ (cancel_instance-Simulates id token now r s m)
store_call-Simulates (begins_step id key init) now r s m fits =
    answers began now _ _ (begin_step-Simulates id key init now r s m)
store_call-Simulates (gets_step id key) now r s m fits =
    (ap maybe_step (get_step-Simulates id key now r s m), m)
store_call-Simulates (saves_step id key st) now r s m (o, known) =
    (refl, save_step-Simulates id key st now r s m o known)
store_call-Simulates (updates_step id key p) now r s m fits =
    (refl, update_step-Simulates id key p now r s m)
store_call-Simulates (removes_steps id keys) now r s m fits =
    (refl, remove_steps-Simulates id keys now r s m)
store_call-Simulates (clears_fields id fields) now r s m fits =
    (refl, clear_instance_fields-Simulates id fields now r s m)
store_call-Simulates (acquires id token ttl) now r s m fits =
    answers granted now _ _ (acquire_lock-Simulates id token ttl now r s m)
store_call-Simulates (renews id token ttl) now r s m fits =
    answers granted now _ _ (renew_lock-Simulates id token ttl now r s m)
store_call-Simulates (releases id token) now r s m fits =
    (refl, release_lock-Simulates id token now r s m)
store_call-Simulates (asks_held ids) now r s m fits =
    (ap held (held_locks-Simulates ids now r s m), m)

store_calls-same :
    (start : ℕ) (cs : List (ℕ × StoreCall)) (r : Redis) (s : Store)
    → Matches start r s
    → Fitting start cs s
    → (store_calls redis_state_store cs r).0 ≡ (store_calls memory_state_store cs s).0
unfolding store_calls
store_calls-same start [] r s m fits = refl
store_calls-same start ((now, c) ∷ cs) r s m (later, (fits, rest)) =
    let one = store_call-Simulates c now r s (Matches-later start now r s later m) fits in
    let more = store_calls-same now cs _ _ one.1 rest in λ k. one.0 k ∷ more k

empty-Matches : Matches 0 no_keys empty
unfolding no_keys empty get_lock steps_of lookup live clone_found
empty-Matches = record { entries = λ id key. refl; locked = λ id. refl }

-- From empty stores, every sequence of the calls of `StoreCall` gets the same answers from Redis as
-- from memory, if its times do not go back, no `undefined` output is written over a stored one,
-- steps are saved for known instances only, and locks are acquired for a time above 0.
pub redis_refines_memory :
    (cs : List (ℕ × StoreCall))
    → Fitting 0 cs empty
    → (store_calls redis_state_store cs no_keys).0 ≡ (store_calls memory_state_store cs empty).0
redis_refines_memory cs fits = store_calls-same 0 cs no_keys empty empty-Matches fits
