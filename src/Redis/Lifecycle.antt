-- ===== src/Redis/Lifecycle.antt =====
-- The instance lifecycle of `RedisStateStore` (store/redis-store.ts): the scripts
-- `BEGIN_TICK_SCRIPT`, `UPDATE_SCRIPT` and `TERMINAL_SCRIPT`, and the methods that run them. The
-- clock reads of one call are one argument, `now`. An unknown status cannot stand in a hash.
use bullmq_durable.Base.{
  ℕ, ◌+◌, String, Bool, true, false, not, ◌&&◌, Option, none, some, List, [], ◌∷◌, map, ◌=s=◌,
  if◌then◌else◌, or_else,
}
use bullmq_durable.Base.Dict.{lookup, insert}
use bullmq_durable.Value.{Value}
use bullmq_durable.Errors.{Thrown, serialize_error}
use bullmq_durable.Types.{
  InstanceState, InstanceStatus, running, completed, failed, compensation_failed, cancelled,
  is_terminal, is_compensating, same_status,
}
use bullmq_durable.Store.{LockRecord}
use bullmq_durable.Store.Admin.{add_to_set}
use bullmq_durable.Store.Instances.{
  InitInstanceInput, InstancePatch, InstanceField, fresh_instance, field_error, field_failed_at,
  field_failure_error, field_failed_step, field_compensation,
}
use bullmq_durable.Redis.{
  Redis, Hash, add_active, remove_active, remove_legacy_active, add_done, clear_done_buckets,
  get_lock,
}
use bullmq_durable.Redis.Fields.{
  PartialInstance, no_fields, encode_instance_fields, hset, parse_instance, all_fields, partial_of,
}

unfoldable pub put_hash : String → Hash → Redis → Redis
put_hash id h r = record r { instances = insert id h r.instances }

-- The answer of `BEGIN_TICK_SCRIPT`.
pub data TickReply : Type 0 where
  terminal tick : Hash → TickReply
  created : TickReply

abbrev pub ended : Option InstanceStatus → Bool
ended none = false
ended (some st) = is_terminal st

-- `status ~= 'compensating'` keeps the status, else `running`.
abbrev pub tick_status : Option InstanceStatus → Option InstanceStatus
tick_status none = some running
tick_status (some st) = if is_compensating st then some st else some running

unfoldable pub tick_hash : ℕ → Hash → Hash
tick_hash now h = record h {
  run_count = some (or_else h.run_count 0 + 1);
  status = tick_status h.status;
  updated_at = some now;
}

unfoldable pub begin_tick_absent : String → String → Hash → Redis → TickReply × Redis
begin_tick_absent id queue create r = (
  created,
  add_active queue id (
      clear_done_buckets queue id
        (record (put_hash id create r) { queues = add_to_set queue r.queues })),
)

-- `BEGIN_TICK_SCRIPT`.
unfoldable pub begin_tick_script : String → ℕ → String → Hash → Redis → TickReply × Redis
begin_tick_script id now queue create r = elim (lookup id r.instances) [
  | none ↦ begin_tick_absent id queue create r
  | some h ↦
      if ended h.status
      then (terminal h, r)
      else (tick (tick_hash now h), add_active queue id (put_hash id (tick_hash now h) r))
]

unfoldable pub tick_instance : InstanceState → TickReply → InstanceState
tick_instance fresh (terminal h) = parse_instance h
tick_instance fresh (tick h) = parse_instance h
tick_instance fresh created = fresh

-- `initInstance`.
unfoldable pub init_instance : InitInstanceInput → ℕ → Redis → InstanceState × Redis
init_instance input now r =
    let fresh = fresh_instance input now in
    let (reply, r') =
      begin_tick_script input.instance_id now input.queue_name
        (encode_instance_fields (all_fields fresh)) r in
    (tick_instance fresh reply, r')

-- `getInstance`.
unfoldable pub get_instance : String → Redis → Option InstanceState
get_instance id r = elim (lookup id r.instances) [ none ↦ none | some h ↦ some (parse_instance h) ]

-- `getInstances`.
unfoldable pub get_instances : List String → Redis → List (Option InstanceState)
get_instances ids r = map (λ id. get_instance id r) ids

-- The index work of `UPDATE_SCRIPT` on a hash of the queue `q` that moves to `new`.
unfoldable pub index_move : String → String → InstanceStatus → ℕ → Redis → Redis
index_move id q new score r =
    if is_terminal new
    then add_done q new score id (remove_legacy_active id (remove_active q id r))
    else add_active q id (clear_done_buckets q id r)

abbrev pub changes : InstanceStatus → Option InstanceStatus → Bool
changes new none = true
changes new (some old) = not (same_status new old)

unfoldable pub index_update :
    String → Option InstanceStatus → Option InstanceStatus → Option String → ℕ → Redis → Redis
unfolding index_move
index_update id none old q score r = r
index_update id (some new) old none score r = r
index_update id (some new) old (some q) score r =
    if changes new old then index_move id q new score r else r

-- `UPDATE_SCRIPT`.
unfoldable pub update_script : String → Option InstanceStatus → ℕ → Hash → Redis → Bool × Redis
update_script id new score fields r = elim (lookup id r.instances) [
  | none ↦ (false, r)
  | some h ↦ (true, index_update id new h.status h.queue_name score (put_hash id (hset fields h) r))
]

unfoldable pub after_update : String → Bool × Redis → Option InstanceState × Redis
unfolding get_instance
after_update id (true, r) = (get_instance id r, r)
after_update id (false, r) = (none, r)

-- `updateInstance`.
unfoldable pub update_instance : String → InstancePatch → ℕ → Redis → Option InstanceState × Redis
unfolding after_update
update_instance id p now r = after_update id (
    update_script id p.status now
      (encode_instance_fields (record (partial_of p) { updated_at = some now })) r)

-- `lockToken ~= ''`, and the lock is another's.
abbrev pub other_token : String → Option LockRecord → Bool
other_token token none = false
other_token token (some l) = not (l.token =s= token)

unfoldable pub fenced : String → Option String → ℕ → Redis → Bool
fenced id none now r = false
fenced id (some token) now r = not (token =s= "") && other_token token (get_lock id now r)

unfoldable pub index_terminal : String → InstanceStatus → Option String → ℕ → Redis → Redis
index_terminal id status none score r = r
index_terminal id status (some q) score r =
    add_done q status score id (remove_legacy_active id (remove_active q id r))

-- `TERMINAL_SCRIPT`, with the answer 1 as `true`, and 0 and -1 as `false`.
unfoldable pub terminal_script :
    String → ℕ → Option String → InstanceStatus → Hash → ℕ → Redis → Bool × Redis
terminal_script id score lock_token status fields now r = elim (lookup id r.instances) [
  | none ↦ (false, r)
  | some h ↦
      if fenced id lock_token now r
      then (false, r)
      else (true, index_terminal id status h.queue_name score (put_hash id (hset fields h) r))
]

-- `terminalTransition`.
unfoldable pub terminal_transition :
    String → InstanceStatus → PartialInstance → Option String → ℕ → Redis → Bool × Redis
terminal_transition id status patch lock_token now =
    terminal_script id now lock_token status (encode_instance_fields patch) now

-- `completeInstance`.
unfoldable pub complete_instance : String → Value → Option String → ℕ → Redis → Bool × Redis
complete_instance id output lock_token now =
    terminal_transition id completed
      (record no_fields {
        status = some completed;
        output = output;
        completed_at = some now;
        updated_at = some now;
      })
      lock_token now

-- `failInstance` and `compensationFailedInstance`, which write another status.
unfoldable pub fail_as : InstanceStatus → String → Thrown → Option String → ℕ → Redis → Bool × Redis
fail_as status id e lock_token now =
    terminal_transition id status
      (record no_fields {
        status = some status;
        error = some (serialize_error e);
        failed_at = some now;
        updated_at = some now;
      })
      lock_token now

unfoldable pub fail_instance : String → Thrown → Option String → ℕ → Redis → Bool × Redis
fail_instance = fail_as failed

unfoldable pub compensation_failed_instance :
    String → Thrown → Option String → ℕ → Redis → Bool × Redis
compensation_failed_instance = fail_as compensation_failed

-- `cancelInstance`.
unfoldable pub cancel_instance : String → Option String → ℕ → Redis → Bool × Redis
cancel_instance id lock_token now =
    terminal_transition id cancelled
      (record no_fields { status = some cancelled; updated_at = some now }) lock_token now

-- `HDEL` of the fields that the callers name.
abbrev pub hdel : InstanceField → Hash → Hash
hdel field_error h = record h { error = none }
hdel field_failed_at h = record h { failed_at = none }
hdel field_failure_error h = record h { failure_error = none }
hdel field_failed_step h = record h { failed_step = none }
hdel field_compensation h = record h { compensation = none }

abbrev pub hdel_all : List InstanceField → Hash → Hash
hdel_all [] h = h
hdel_all (f ∷ fs) h = hdel_all fs (hdel f h)

-- `clearInstanceFields`. There are no times to live for `PERSIST` to take away.
unfoldable pub clear_instance_fields : String → List InstanceField → Redis → Redis
clear_instance_fields id fields r = elim (lookup id r.instances) [
  | none ↦ r
  | some h ↦ put_hash id (hdel_all fields h) r
]
