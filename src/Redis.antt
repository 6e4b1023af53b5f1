-- ===== src/Redis.antt =====
-- store/redis-store.ts: the keys that `RedisStateStore` keeps under its prefix, and the commands of
-- Redis that its scripts and methods use. A script is atomic and becomes one function. Every command
-- is taken to succeed. A field of a hash holds the value that its text stands for: a number for its
-- digits, a JSON value for its text; texts that do not parse are left out.
pub mod Texts
pub mod Fields
pub mod Lifecycle
pub mod Checkpoints
pub mod Advisory
pub mod Indexes
pub mod Matches
pub mod Represents
pub mod Interface
pub mod Calls
pub mod Refines
pub mod Indexed
pub mod Placed
pub mod Written
pub mod Kept
pub mod Complete
use bullmq_durable.Base.{
  ℕ, String, Bool, true, false, ◌&&◌, Option, none, some, List, [], ◌∷◌, filter, not, ltb, ◌=s=◌,
  if◌then◌else◌, or_else,
}
use bullmq_durable.Base.Dict.{Dict, lookup, insert, remove}
use bullmq_durable.Value.{Value}
use bullmq_durable.Errors.{SerializedError}
use bullmq_durable.Types.{
  InstanceStatus, CompensationReport, StepState, completed, failed, cancelled, compensation_failed,
  same_status,
}
use bullmq_durable.Store.{LockRecord}
use bullmq_durable.Store.Admin.{add_to_set}

-- An instance hash, or the field pairs of one `HSET`, by what the texts stand for: a field that is
-- absent is `none`.
pub record Hash : Type 0 where
  pub id : Option String
  pub queue_name : Option String
  pub job_name : Option String
  pub original_job_id : Option String
  pub status : Option InstanceStatus
  pub input : Option Value
  pub output : Option Value
  pub error : Option SerializedError
  pub failure_error : Option SerializedError
  pub failed_step : Option String
  pub compensation : Option CompensationReport
  pub run_count : Option ℕ
  pub resume_seq : Option ℕ
  pub step_seq : Option ℕ
  pub created_at : Option ℕ
  pub updated_at : Option ℕ
  pub completed_at : Option ℕ
  pub failed_at : Option ℕ

-- `{prefix}:instance:{id}`, `{prefix}:steps:{id}`, `{prefix}:lock:{id}`, `{prefix}:queues`,
-- `{prefix}:idx:{queue}:active`, `{prefix}:idx:{queue}:done:{status}` with its scores, and the two
-- 0.1.x forms of the index.
pub record Redis : Type 0 where
  pub instances : Dict Hash
  pub steps : Dict (Dict StepState)
  pub locks : Dict LockRecord
  pub queues : List String
  pub active : String → List String
  pub done : String → InstanceStatus → Dict ℕ
  pub legacy_active : List String
  pub legacy_done : InstanceStatus → Dict ℕ

unfoldable pub no_keys : Redis
no_keys = record {
  instances = [];
  steps = [];
  locks = [];
  queues = [];
  active = λ q. [];
  done = λ q st. [];
  legacy_active = [];
  legacy_done = λ st. [];
}

-- `GET` of a lock key: a key whose time to live is over does not exist.
unfoldable pub live : ℕ → Option LockRecord → Option LockRecord
live now none = none
live now (some l) = if ltb now l.expires_at then some l else none

unfoldable pub get_lock : String → ℕ → Redis → Option LockRecord
unfolding live
get_lock id now r = live now (lookup id r.locks)

-- `HGETALL` of a steps hash.
unfoldable pub steps_of : String → Redis → Dict StepState
steps_of id r = or_else (lookup id r.steps) []

-- `SREM`.
unfoldable pub set_remove : String → List String → List String
set_remove x = filter (λ y. not (y =s= x))

-- `SADD` and `SREM` on the active set of a queue.
unfoldable pub add_active : String → String → Redis → Redis
add_active queue id r = record r {
  active = λ q. if q =s= queue then add_to_set id (r.active q) else r.active q;
}

unfoldable pub remove_active : String → String → Redis → Redis
unfolding set_remove
remove_active queue id r = record r {
  active = λ q. if q =s= queue then set_remove id (r.active q) else r.active q;
}

unfoldable pub remove_legacy_active : String → Redis → Redis
unfolding set_remove
remove_legacy_active id r = record r { legacy_active = set_remove id r.legacy_active }

-- `ZADD` and `ZREM` on a done bucket.
unfoldable pub add_done : String → InstanceStatus → ℕ → String → Redis → Redis
add_done queue status score id r = record r {
  done = λ q st.
      if (q =s= queue) && same_status st status then insert id score (r.done q st) else r.done q st;
}

unfoldable pub remove_done : String → InstanceStatus → String → Redis → Redis
remove_done queue status id r = record r {
  done = λ q st.
      if (q =s= queue) && same_status st status then remove id (r.done q st) else r.done q st;
}

unfoldable pub remove_legacy_done : InstanceStatus → String → Redis → Redis
remove_legacy_done status id r = record r {
  legacy_done =
      λ st. if same_status st status then remove id (r.legacy_done st) else r.legacy_done st;
}

unfoldable pub clear_buckets : List InstanceStatus → String → String → Redis → Redis
clear_buckets [] queue id r = r
clear_buckets (st ∷ sts) queue id r =
    clear_buckets sts queue id (remove_legacy_done st id (remove_done queue st id r))

-- `clearDoneBuckets`.
unfoldable pub clear_done_buckets : String → String → Redis → Redis
clear_done_buckets = clear_buckets (completed ∷ failed ∷ cancelled ∷ compensation_failed ∷ [])
