-- ===== src/Redis/Refines/Instances.antt =====
-- `initInstance`, `updateInstance`, `getInstance` and `clearInstanceFields` of the two stores.
use bullmq_durable.Base.{
  ℕ, String, Option, none, some, ◌≡◌, refl, sym, ap, ◌∙◌, inl, inr, Bool-cases, List, [], ◌∷◌,
}
use bullmq_durable.Base.Dict.{lookup, lookup-insert_self}
use bullmq_durable.Value.{clone_value}
use bullmq_durable.Value.Clone.{clone_value-clone_value}
use bullmq_durable.Types.{InstanceState, InstanceStatus, is_terminal}
use bullmq_durable.Store.{Store, clone_instance, update_record}
use bullmq_durable.Store.Instances.{
  InitInstanceInput, InstancePatch, InstanceField, fresh_instance, patch_record, begin_tick,
}
use bullmq_durable.Redis.{
  Redis, Hash, add_active, add_done, remove_active, remove_legacy_active, clear_done_buckets,
  clear_buckets, remove_legacy_done, remove_done,
}
use bullmq_durable.Redis.Fields.{encode_instance_fields, hset, parse_instance, partial_of}
use bullmq_durable.Redis.Lifecycle.{
  put_hash, index_update, index_move, changes, begin_tick_script, begin_tick_absent, tick_instance,
  update_script, after_update, ended, tick_hash,
}
use bullmq_durable.Redis.Matches.{Matches, Represents}
use bullmq_durable.Redis.Represents.{
  Represents-all_fields, Represents-tick_hash, Represents-partial_of, Represents-hdel_all,
}
use bullmq_durable.Redis.Refines.Known.{
  Simulates, SameData, SameData-refl, Matches-SameData, Matches-put_hash, Matches-cases,
}
use bullmq_durable.Store.Instances
use bullmq_durable.Redis.Lifecycle

pub add_active-SameData : (q id : String) (r : Redis) → SameData r (add_active q id r)
unfolding add_active
add_active-SameData q id r = record { instances = refl; steps = refl; locks = refl }

index_move-SameData :
    (id q : String) (new : InstanceStatus) (score : ℕ) (r : Redis)
    → SameData r (index_move id q new score r)
unfolding index_move add_done remove_active remove_legacy_active add_active clear_done_buckets
    clear_buckets remove_done remove_legacy_done
index_move-SameData id q new score r = elim (Bool-cases (is_terminal new)) [
  | inl e ↦ rw (e) (record { instances = refl; steps = refl; locks = refl })
  | inr e ↦ rw (e) (record { instances = refl; steps = refl; locks = refl })
]

pub index_update-SameData :
    (id : String) (new old : Option InstanceStatus) (q : Option String) (score : ℕ) (r : Redis)
    → SameData r (index_update id new old q score r)
unfolding index_update
index_update-SameData id none old q score r = SameData-refl r
index_update-SameData id (some new) old none score r = SameData-refl r
index_update-SameData id (some new) old (some q) score r = elim (Bool-cases (changes new old)) [
  | inl e ↦ rw (e) (index_move-SameData id q new score r)
  | inr e ↦ rw (e) (SameData-refl r)
]

pub begin_tick_absent-SameData :
    (id q : String) (h : Hash) (r : Redis)
    → SameData (put_hash id h r) (begin_tick_absent id q h r).1
unfolding begin_tick_absent add_active clear_done_buckets clear_buckets remove_done
    remove_legacy_done
begin_tick_absent-SameData id q h r = record { instances = refl; steps = refl; locks = refl }

clone_instance-fresh_instance :
    (input : InitInstanceInput) (now : ℕ)
    → fresh_instance input now ≡ clone_instance (fresh_instance input now)
unfolding clone_instance fresh_instance clone_value
clone_instance-fresh_instance input now =
    λ k. record (fresh_instance input now) { input = sym (clone_value-clone_value input.input) k }

ended-Represents :
    (h : Hash) (i : InstanceState) → Represents h i → ended h.status ≡ is_terminal i.status
ended-Represents h i e = ap ended e.has_status

pub init_instance-Simulates :
    (input : InitInstanceInput) (now : ℕ) (r : Redis) (s : Store)
    → Matches now r s
    → Simulates now (Lifecycle.init_instance input now r) (Instances.init_instance input now s)
unfolding Lifecycle.init_instance Instances.init_instance tick_instance begin_tick_script
    begin_tick_absent fresh_instance lookup
init_instance-Simulates input now r s m = elim (Matches-cases now input.instance_id r s m) [
  | inl u ↦
      rw (u.no_hash, begin_tick_script, u.no_record, Instances.init_instance)
        (
          clone_instance-fresh_instance input now,
          Matches-SameData now _ _ _
              (begin_tick_absent-SameData input.instance_id input.queue_name _ r)
              (Matches-put_hash now input.instance_id r s _ _ m
                (Represents-all_fields (fresh_instance input now) refl) u.no_steps),
        )
  | inr k ↦
      rw
        (
          k.in_redis,
          begin_tick_script,
          k.in_memory,
          Instances.init_instance,
          ended-Represents k.hash k.owner.instance k.reads,
        )
        (elim (Bool-cases (is_terminal k.owner.instance.status)) [
          | inl e ↦ rw (e) (k.reads.parsed, m)
          | inr e ↦ rw (e) (
            (Represents-tick_hash now k.hash k.owner.instance k.reads).parsed,
            Matches-SameData now _ _ _ (add_active-SameData input.queue_name input.instance_id _) (
                Matches-put_hash now input.instance_id r s _ _ m
                  (Represents-tick_hash now k.hash k.owner.instance k.reads) k.same_steps),
          )
        ])
]

pub get_instance-Simulates :
    (id : String) (now : ℕ) (r : Redis) (s : Store)
    → Matches now r s
    → Lifecycle.get_instance id r ≡ Instances.get_instance id s
unfolding Lifecycle.get_instance Instances.get_instance
get_instance-Simulates id now r s m = elim (Matches-cases now id r s m) [
  | inl u ↦ rw (u.no_hash, Lifecycle.get_instance, u.no_record, Instances.get_instance) refl
  | inr k ↦
      rw (k.in_redis, Lifecycle.get_instance, k.in_memory, Instances.get_instance)
        (ap some k.reads.parsed)
]

get_instance-known :
    (id : String) (r : Redis) (h : Hash)
    → lookup id r.instances ≡ some h
    → Lifecycle.get_instance id r ≡ some (parse_instance h)
unfolding Lifecycle.get_instance parse_instance
get_instance-known id r h e = rw (e, Lifecycle.get_instance) refl

pub update_instance-Simulates :
    (id : String) (p : InstancePatch) (now : ℕ) (r : Redis) (s : Store)
    → Matches now r s
    → Simulates now (Lifecycle.update_instance id p now r) (Instances.update_instance id p now s)
unfolding Lifecycle.update_instance after_update update_script Instances.update_instance
    patch_record put_hash
update_instance-Simulates id p now r s m = elim (Matches-cases now id r s m) [
  | inl u ↦ rw (u.no_hash, update_script, u.no_record, Instances.update_instance) (refl, m)
  | inr k ↦
      rw (k.in_redis, update_script, k.in_memory, Instances.update_instance)
        (let written = Represents-partial_of p now k.hash k.owner.instance k.reads in
          let stored =
            put_hash id
              (hset (encode_instance_fields (record (partial_of p) { updated_at = some now }))
                k.hash)
              r in
          let moved =
            index_update-SameData id p.status k.hash.status k.hash.queue_name now stored in
          (
            get_instance-known id
                  (index_update id p.status k.hash.status k.hash.queue_name now stored) _
                  (ap (lookup id) moved.instances ∙ lookup-insert_self id _ r.instances)
                ∙ ap some written.parsed,
            Matches-SameData now stored _ _ moved
                (Matches-put_hash now id r s _ (patch_record p now k.owner) m written k.same_steps),
          ))
]

pub clear_instance_fields-Simulates :
    (id : String) (fields : List InstanceField) (now : ℕ) (r : Redis) (s : Store)
    → Matches now r s
    → Matches now
        (Lifecycle.clear_instance_fields id fields r)
        (Instances.clear_instance_fields id fields s)
unfolding Instances.clear_instance_fields Lifecycle.clear_instance_fields update_record
clear_instance_fields-Simulates id fields now r s m = elim (Matches-cases now id r s m) [
  | inl u ↦ rw (u.no_hash, Lifecycle.clear_instance_fields, u.no_record, update_record) m
  | inr k ↦
      rw (k.in_redis, Lifecycle.clear_instance_fields, k.in_memory, update_record)
        (Matches-put_hash now id r s _ _ m
          (Represents-hdel_all fields k.hash k.owner.instance k.reads) k.same_steps)
]

pub get_instances-Simulates :
    (ids : List String) (now : ℕ) (r : Redis) (s : Store)
    → Matches now r s
    → Lifecycle.get_instances ids r ≡ Instances.get_instances ids s
unfolding Lifecycle.get_instances Instances.get_instances
get_instances-Simulates [] now r s m = refl
get_instances-Simulates (id ∷ ids) now r s m =
    let one = get_instance-Simulates id now r s m in
    let more = get_instances-Simulates ids now r s m in λ k. one k ∷ more k
