-- ===== src/Redis/Complete.antt =====
-- The index of `RedisStateStore` is complete: after every sequence of calls each instance is where
-- its status says.
use bullmq_durable.Base.{
  ℕ, String, Bool, true, false, Option, none, some, ◌≡◌, refl, inl, inr, Bool-cases, List, [], ◌∷◌,
  if◌then◌else◌,
}
use bullmq_durable.Base.Dict.{Dict, lookup}
use bullmq_durable.Types.{StepState}
use bullmq_durable.Store.Instances.{fresh_instance}
use bullmq_durable.Store.Steps.{StepPatch}
use bullmq_durable.Redis.{Redis, no_keys, get_lock}
use bullmq_durable.Redis.Fields.{encode_instance_fields, all_fields, partial_of}
use bullmq_durable.Redis.Lifecycle.{
  put_hash, begin_tick_absent, begin_tick_script, tick_hash, tick_status, ended, index_update,
  update_script, after_update, index_terminal, terminal_script, fenced, fail_as, hdel, hdel_all,
}
use bullmq_durable.Redis.Checkpoints.{
  create_step, begin_live, put_steps, seq_hash, hash_seq, update_found,
}
use bullmq_durable.Redis.Advisory.{ours, put_lock}
use bullmq_durable.Redis.Interface.{redis_state_store}
use bullmq_durable.Redis.Calls.{
  StoreCall, store_call, store_calls, inits, gets, gets_many, updates, completes, fails,
  compensation_fails, cancels, begins_step, gets_step, saves_step, updates_step, removes_steps,
  clears_fields, acquires, renews, releases, asks_held,
}
use bullmq_durable.Store.{LockRecord}
use bullmq_durable.Redis.Indexed.{
  placed, listed_found, is_indexed, Indexed, Stays, listed_found-Stays,
}
use bullmq_durable.Redis.Kept.{
  update_script-Indexed, terminal_script-Indexed, begin_tick_script-Indexed,
  clear_instance_fields-Indexed, begin_step-Indexed, put_steps-Indexed,
}
use bullmq_durable.Redis.Lifecycle
use bullmq_durable.Redis.Checkpoints
use bullmq_durable.Redis.Advisory

-- Nor are the locks.
locks-Indexed :
    (locks : Dict LockRecord) (r : Redis) → Indexed r → Indexed (record r { locks = locks })
unfolding is_indexed placed
locks-Indexed locks r i name = listed_found-Stays name _ r _ (same-Stays name) (i name)
  where
    same-Stays : (name : String) → Stays name r (record r { locks = locks })
    same-Stays name q st x = x

if_Indexed :
    (b : Bool) (x y : Bool × Redis)
    → Indexed x.1
    → Indexed y.1
    → Indexed (if◌then◌else◌ {A = Bool × Redis} b x y).1
if_Indexed true x y i j = i
if_Indexed false x y i j = j

release_lock-Indexed :
    (id token : String) (now : ℕ) (r : Redis)
    → Indexed r
    → Indexed (Advisory.release_lock id token now r)
unfolding Advisory.release_lock
release_lock-Indexed id token now r i = elim (Bool-cases (ours token (get_lock id now r))) [
  | inl e ↦ rw (e) (locks-Indexed _ r i)
  | inr e ↦ rw (e) i
]

update_found-Indexed :
    (id key : String) (p : StepPatch) (o : Option StepState) (r : Redis)
    → Indexed r
    → Indexed (update_found id key p o r)
unfolding update_found Checkpoints.save_step
update_found-Indexed id key p none r i = i
update_found-Indexed id key p (some st) r i = put_steps-Indexed id _ r i

after_update-Indexed :
    (id : String) (x : Bool × Redis) → Indexed x.1 → Indexed (after_update id x).1
unfolding after_update
after_update-Indexed id (true, r) i = i
after_update-Indexed id (false, r) i = i

pub store_call-Indexed :
    (c : StoreCall) (now : ℕ) (r : Redis)
    → Indexed r
    → Indexed (store_call redis_state_store c now r).1
unfolding store_call redis_state_store Lifecycle.init_instance Lifecycle.update_instance
    Lifecycle.complete_instance Lifecycle.fail_instance Lifecycle.compensation_failed_instance
    fail_as Lifecycle.cancel_instance Lifecycle.terminal_transition Checkpoints.save_step
    Checkpoints.update_step Checkpoints.remove_steps Advisory.acquire_lock Advisory.renew_lock
    put_lock encode_instance_fields all_fields fresh_instance partial_of
store_call-Indexed (inits input) now r i =
    begin_tick_script-Indexed input.instance_id now input.queue_name _ r refl refl i
store_call-Indexed (gets id) now r i = i
store_call-Indexed (gets_many ids) now r i = i
store_call-Indexed (updates id p) now r i =
    after_update-Indexed id _ (update_script-Indexed id p.status now _ r refl refl i)
store_call-Indexed (completes id output token) now r i =
    terminal_script-Indexed id now token _ _ now r refl refl refl i
store_call-Indexed (fails id e token) now r i =
    terminal_script-Indexed id now token _ _ now r refl refl refl i
store_call-Indexed (compensation_fails id e token) now r i =
    terminal_script-Indexed id now token _ _ now r refl refl refl i
store_call-Indexed (cancels id token) now r i =
    terminal_script-Indexed id now token _ _ now r refl refl refl i
store_call-Indexed (begins_step id key init) now r i = begin_step-Indexed id key init r i
store_call-Indexed (gets_step id key) now r i = i
store_call-Indexed (saves_step id key st) now r i = put_steps-Indexed id _ r i
store_call-Indexed (updates_step id key p) now r i = update_found-Indexed id key p _ r i
store_call-Indexed (removes_steps id keys) now r i = put_steps-Indexed id _ r i
store_call-Indexed (clears_fields id fields) now r i = clear_instance_fields-Indexed id fields r i
store_call-Indexed (acquires id token ttl) now r i = if_Indexed _ _ _ (locks-Indexed _ r i) i
store_call-Indexed (renews id token ttl) now r i = if_Indexed _ _ _ (locks-Indexed _ r i) i
store_call-Indexed (releases id token) now r i = release_lock-Indexed id token now r i
store_call-Indexed (asks_held ids) now r i = i

store_calls-Indexed :
    (cs : List (ℕ × StoreCall)) (r : Redis)
    → Indexed r
    → Indexed (store_calls redis_state_store cs r).1
unfolding store_calls
store_calls-Indexed [] r i = i
store_calls-Indexed ((now, c) ∷ cs) r i = store_calls-Indexed cs _ (store_call-Indexed c now r i)

-- From an empty Redis, after every sequence of calls each instance that has a hash has a queue in
-- it and is in the active set of that queue, or in the done bucket of that queue and its status if
-- the status is terminal.
pub redis_index_complete :
    (cs : List (ℕ × StoreCall)) (id : String)
    → is_indexed id (store_calls redis_state_store cs no_keys).1 ≡ true
unfolding is_indexed listed_found lookup no_keys
redis_index_complete cs id = store_calls-Indexed cs no_keys (λ name. refl) id
