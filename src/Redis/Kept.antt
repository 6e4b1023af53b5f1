-- ===== src/Redis/Kept.antt =====
-- The scripts of `RedisStateStore` keep the index right.
use bullmq_durable.Base.{
  ℕ, String, true, false, Option, none, some, ◌≡◌, refl, ap, ◌∙◌, inl, inr, Bool-cases,
  Option-cases, List, [], ◌∷◌, coalesce, or_else,
}
use bullmq_durable.Base.Dict.{Dict, lookup, insert}
use bullmq_durable.Types.{
  InstanceStatus, running, is_terminal, is_compensating, is_cancelled_status, StepState,
}
use bullmq_durable.Store.Instances.{
  InstanceField, field_error, field_failed_at, field_failure_error, field_failed_step,
  field_compensation,
}
use bullmq_durable.Store.Steps.{BeginStepInit, fresh_step}
use bullmq_durable.Store.Admin.{add_to_set}
use bullmq_durable.Redis.{live, Redis, Hash, steps_of, add_active, clear_done_buckets}
use bullmq_durable.Redis.Fields.{encode_instance_fields, hset, PartialInstance}
use bullmq_durable.Redis.Lifecycle.{
  put_hash, begin_tick_absent, begin_tick_script, tick_hash, tick_status, ended, index_update,
  update_script, after_update, index_terminal, terminal_script, fenced, fail_as, hdel, hdel_all,
}
use bullmq_durable.Redis.Checkpoints.{
  create_step, begin_live, put_steps, seq_hash, hash_seq, update_found,
}
use bullmq_durable.Redis.Refines.Known.{SameData-refl}
use bullmq_durable.Redis.Refines.Instances.{
  index_update-SameData, add_active-SameData, begin_tick_absent-SameData,
}
use bullmq_durable.Redis.Refines.Settles.{index_terminal-SameData}
use bullmq_durable.Redis.Indexed.{
  placed, listed, is_indexed, Indexed, Stays, Stays-trans, listed_found-Stays, add_active-Stays,
  add_active-placed, Indexed-change,
}
use bullmq_durable.Redis.Written.{
  ChangedAt-put_hash, listed-known, listed_by, listed-Stays, put_hash-Stays,
}
use bullmq_durable.Redis.Placed.{
  index_update-Stays, listed-index_update, index_terminal-Stays, listed-index_terminal,
  moved_to_active-Stays,
}
use bullmq_durable.Redis.Lifecycle
use bullmq_durable.Redis.Checkpoints

update_known :
    (id : String) (new : Option InstanceStatus) (score : ℕ) (fields : Hash) (r : Redis) (h : Hash)
    → fields.queue_name ≡ none
    → fields.status ≡ new
    → listed id h.queue_name h.status r ≡ true
    → Indexed r
    → Indexed (index_update id new h.status h.queue_name score (put_hash id (hset fields h) r))
unfolding hset
update_known id new score fields r h noq st known i =
    let r' = put_hash id (hset fields h) r in
    Indexed-change id (hset fields h) r (index_update id new h.status h.queue_name score r') i
      (ChangedAt-put_hash id (hset fields h) r _
        (index_update-SameData id new h.status h.queue_name score r'))
      (λ name ne.
        Stays-trans name r r' _ (put_hash-Stays name id (hset fields h) r)
          (index_update-Stays name id new h.status h.queue_name score r' ne))
      (listed_by id _ _ _ _ _ (ap (λ x. coalesce x h.queue_name) noq)
        (ap (λ x. coalesce x h.status) st)
        (listed-index_update id new h.status h.queue_name score r' (
          listed-Stays id h.queue_name h.status r r' (put_hash-Stays id id (hset fields h) r)
            known)))

terminal_known :
    (id : String) (st : InstanceStatus) (score : ℕ) (fields : Hash) (r : Redis) (h : Hash)
    → fields.queue_name ≡ none
    → fields.status ≡ some st
    → is_terminal st ≡ true
    → listed id h.queue_name h.status r ≡ true
    → Indexed r
    → Indexed (index_terminal id st h.queue_name score (put_hash id (hset fields h) r))
unfolding hset
terminal_known id st score fields r h noq est ends known i =
    let r' = put_hash id (hset fields h) r in
    Indexed-change id (hset fields h) r (index_terminal id st h.queue_name score r') i
      (ChangedAt-put_hash id (hset fields h) r _
        (index_terminal-SameData id st h.queue_name score r'))
      (λ name ne.
        Stays-trans name r r' _ (put_hash-Stays name id (hset fields h) r)
          (index_terminal-Stays name id st h.queue_name score r' ne))
      (listed_by id _ _ _ _ _ (ap (λ x. coalesce x h.queue_name) noq)
        (ap (λ x. coalesce x h.status) est)
        (listed-index_terminal id st h.status h.queue_name score r' ends (
          listed-Stays id h.queue_name h.status r r' (put_hash-Stays id id (hset fields h) r)
            known)))

-- `UPDATE_SCRIPT` with fields that leave the queue and set the status to `new`.
pub update_script-Indexed :
    (id : String) (new : Option InstanceStatus) (score : ℕ) (p : PartialInstance) (r : Redis)
    → p.queue_name ≡ none
    → p.status ≡ new
    → Indexed r
    → Indexed (update_script id new score (encode_instance_fields p) r).1
unfolding update_script encode_instance_fields
update_script-Indexed id new score p r noq st i = elim (Option-cases (lookup id r.instances)) [
  | inl e ↦ rw (e, update_script) i
  | inr (h, e) ↦
      rw (e, update_script)
        (update_known id new score (encode_instance_fields p) r h noq st (listed-known id r h i e)
          i)
]

pub terminal_script-Indexed :
    (id : String) (score : ℕ) (token : Option String) (st : InstanceStatus) (p : PartialInstance)
    (now : ℕ) (r : Redis)
    → p.queue_name ≡ none
    → p.status ≡ some st
    → is_terminal st ≡ true
    → Indexed r
    → Indexed (terminal_script id score token st (encode_instance_fields p) now r).1
unfolding terminal_script encode_instance_fields
terminal_script-Indexed id score token st p now r noq est ends i =
    elim (Option-cases (lookup id r.instances)) [
      | inl e ↦ rw (e, terminal_script) i
      | inr (h, e) ↦
          rw (e, terminal_script)
            (elim (Bool-cases (fenced id token now r)) [
              | inl f ↦ rw (f) i
              | inr f ↦ rw (f) (
                  terminal_known id st score (encode_instance_fields p) r h noq est ends
                    (listed-known id r h i e) i)
            ])
    ]

tick_status-live :
    (st : Option InstanceStatus)
    → ended st ≡ false
    → is_terminal (or_else (tick_status st) running) ≡ false
tick_status-live none h = refl
tick_status-live (some st) h = elim (Bool-cases (is_compensating st)) [
  | inl e ↦ rw (e) h
  | inr e ↦ rw (e) refl
]

listed-live :
    (id : String) (q : Option String) (st : Option InstanceStatus) (r : Redis)
    → ended st ≡ false
    → listed id q st r ≡ true
    → listed id q (tick_status st) r ≡ true
unfolding listed placed
listed-live id none st r live h = h
listed-live id (some q) none r live h = h
listed-live id (some q) (some st) r live h = elim (Bool-cases (is_compensating st)) [
  | inl e ↦ rw (e) h
  | inr e ↦ rw (e) (rw (live, placed) at h)
]

registered-Stays :
    (name id queue : String) (create : Hash) (r : Redis)
    → Stays name r (record (put_hash id create r) { queues = add_to_set queue r.queues })
unfolding placed put_hash
registered-Stays name id queue create r q st x = x

placed_running :
    (id queue : String) (r : Redis)
    → placed id queue running r ≡ true
    → listed id (some queue) (some running) r ≡ true
unfolding listed
placed_running id queue r h = h

begin_tick_absent-Indexed :
    (id queue : String) (create : Hash) (r : Redis)
    → create.queue_name ≡ some queue
    → create.status ≡ some running
    → Indexed r
    → Indexed (begin_tick_absent id queue create r).1
unfolding begin_tick_absent
begin_tick_absent-Indexed id queue create r eq est i =
    let r' = record (put_hash id create r) { queues = add_to_set queue r.queues } in
    Indexed-change id create r (add_active queue id (clear_done_buckets queue id r')) i
      (ChangedAt-put_hash id create r _ (begin_tick_absent-SameData id queue create r))
      (λ name ne.
        Stays-trans name r r' _ (registered-Stays name id queue create r)
          (moved_to_active-Stays name queue id r' ne))
      (listed_by id _ _ _ _ _ eq est (
        placed_running id queue _
          (add_active-placed queue id running (clear_done_buckets queue id r') refl)))

tick_hash-Indexed :
    (id : String) (now : ℕ) (queue : String) (h : Hash) (r : Redis)
    → lookup id r.instances ≡ some h
    → ended h.status ≡ false
    → Indexed r
    → Indexed (add_active queue id (put_hash id (tick_hash now h) r))
unfolding tick_hash
tick_hash-Indexed id now queue h r e live i =
    let r' = put_hash id (tick_hash now h) r in
    Indexed-change id (tick_hash now h) r (add_active queue id r') i
      (ChangedAt-put_hash id (tick_hash now h) r _ (add_active-SameData queue id r'))
      (λ name ne.
        Stays-trans name r r' _ (put_hash-Stays name id (tick_hash now h) r)
          (add_active-Stays name queue id r'))
      (listed-Stays id h.queue_name (tick_status h.status) r _
        (Stays-trans id r r' _ (put_hash-Stays id id (tick_hash now h) r)
          (add_active-Stays id queue id r'))
        (listed-live id h.queue_name h.status r live (listed-known id r h i e)))

pub begin_tick_script-Indexed :
    (id : String) (now : ℕ) (queue : String) (create : Hash) (r : Redis)
    → create.queue_name ≡ some queue
    → create.status ≡ some running
    → Indexed r
    → Indexed (begin_tick_script id now queue create r).1
unfolding begin_tick_script
begin_tick_script-Indexed id now queue create r eq est i =
    elim (Option-cases (lookup id r.instances)) [
      | inl e ↦ rw (e, begin_tick_script) (begin_tick_absent-Indexed id queue create r eq est i)
      | inr (h, e) ↦
          rw (e, begin_tick_script)
            (elim (Bool-cases (ended h.status)) [
              | inl f ↦ rw (f) i
              | inr f ↦ rw (f) (tick_hash-Indexed id now queue h r e f i)
            ])
    ]

-- A write that leaves the queue and the status of a known id.
put_hash-Indexed :
    (id : String) (h h' : Hash) (r : Redis)
    → lookup id r.instances ≡ some h
    → h'.queue_name ≡ h.queue_name
    → h'.status ≡ h.status
    → Indexed r
    → Indexed (put_hash id h' r)
put_hash-Indexed id h h' r e eq est i =
    Indexed-change id h' r (put_hash id h' r) i
      (ChangedAt-put_hash id h' r (put_hash id h' r) (SameData-refl (put_hash id h' r)))
      (λ name ne. put_hash-Stays name id h' r)
      (listed_by id _ _ _ _ _ eq est (
        listed-Stays id h.queue_name h.status r _ (put_hash-Stays id id h' r)
          (listed-known id r h i e)))

-- The steps are no part of the index.
pub put_steps-Indexed :
    (id : String) (ss : Dict StepState) (r : Redis) → Indexed r → Indexed (put_steps id ss r)
unfolding put_steps is_indexed placed
put_steps-Indexed id ss r i name = listed_found-Stays name _ r _ (steps-Stays name) (i name)
  where
    steps-Stays : (name : String) → Stays name r (record r { steps = insert id ss r.steps })
    steps-Stays name q st x = x

hdel-keeps :
    (f : InstanceField) (h : Hash)
    → ((hdel f h).queue_name ≡ h.queue_name) × ((hdel f h).status ≡ h.status)
hdel-keeps field_error h = (refl, refl)
hdel-keeps field_failed_at h = (refl, refl)
hdel-keeps field_failure_error h = (refl, refl)
hdel-keeps field_failed_step h = (refl, refl)
hdel-keeps field_compensation h = (refl, refl)

hdel_all-keeps :
    (fs : List InstanceField) (h : Hash)
    → ((hdel_all fs h).queue_name ≡ h.queue_name) × ((hdel_all fs h).status ≡ h.status)
hdel_all-keeps [] h = (refl, refl)
hdel_all-keeps (f ∷ fs) h =
    let one = hdel-keeps f h in
    let more = hdel_all-keeps fs (hdel f h) in (more.0 ∙ one.0, more.1 ∙ one.1)

pub clear_instance_fields-Indexed :
    (id : String) (fs : List InstanceField) (r : Redis)
    → Indexed r
    → Indexed (Lifecycle.clear_instance_fields id fs r)
unfolding Lifecycle.clear_instance_fields
clear_instance_fields-Indexed id fs r i = elim (Option-cases (lookup id r.instances)) [
  | inl e ↦ rw (e, Lifecycle.clear_instance_fields) i
  | inr (h, e) ↦
      rw (e, Lifecycle.clear_instance_fields)
        (put_hash-Indexed id h (hdel_all fs h) r e (hdel_all-keeps fs h).0 (hdel_all-keeps fs h).1
          i)
]

begin_live-Indexed :
    (id key : String) (init : BeginStepInit) (h : Hash) (st : Option InstanceStatus) (r : Redis)
    → lookup id r.instances ≡ some h
    → Indexed r
    → Indexed (begin_live id key init h st r).1
unfolding begin_live create_step put_steps seq_hash
begin_live-Indexed id key init h none r e i = i
begin_live-Indexed id key init h (some st) r e i = elim (Bool-cases (is_cancelled_status st)) [
  | inl c ↦ rw (c) i
  | inr c ↦ rw (c) (create_step-Indexed (lookup key (steps_of id r)))
]
  where
    create_step-Indexed : (o : Option StepState) → Indexed (create_step id key init h o r).1
    create_step-Indexed none =
        put_hash-Indexed id h (seq_hash init.now h)
          (put_steps id (insert key (fresh_step init (hash_seq h)) (steps_of id r)) r) e refl refl
          (put_steps-Indexed id _ r i)
    create_step-Indexed (some x) = i

pub begin_step-Indexed :
    (id key : String) (init : BeginStepInit) (r : Redis)
    → Indexed r
    → Indexed (Checkpoints.begin_step id key init r).1
unfolding Checkpoints.begin_step
begin_step-Indexed id key init r i = elim (Option-cases (lookup id r.instances)) [
  | inl e ↦ rw (e, Checkpoints.begin_step) i
  | inr (h, e) ↦ rw (e, Checkpoints.begin_step) (begin_live-Indexed id key init h h.status r e i)
]
