-- ===== src/Redis/Refines/Steps.antt =====
-- The step methods of the two stores.
use bullmq_durable.Base.{
  ℕ, String, Option, none, some, ◌≡◌, refl, sym, ap, ◌∙◌, inl, inr, Bool, true, false, Bool-cases,
  List, [], ◌∷◌, if◌then◌else◌, or_else, ◌+◌, ◌=s=◌,
}
use mathlib.Core.Path.{subst}
use bullmq_durable.Base.Dict.{Dict, lookup, insert, remove, lookup-insert, lookup-remove}
use bullmq_durable.Value.{clone_value}
use bullmq_durable.Value.Clone.{clone_value-clone_value}
use bullmq_durable.Types.{StepState, is_cancelled_status}
use bullmq_durable.Store.{Store, InstanceRecord, clone_instance, clone_step, update_record}
use bullmq_durable.Store.Steps.{
  BeginStepInit, StepPatch, fresh_step, patch_step, patch_steps, clone_found, find_step,
  remove_keys, next_seq, add_step, begin_absent, begin_record, created,
}
use bullmq_durable.Redis.{Redis, Hash, steps_of}
use bullmq_durable.Redis.Lifecycle.{put_hash}
use bullmq_durable.Redis.Checkpoints.{
  put_steps, hash_seq, seq_hash, create_step, begin_live, update_found,
}
use bullmq_durable.Redis.Fields.{parse_instance}
use bullmq_durable.Redis.Matches.{Matches, Represents, SameSteps, ChangedAt-insert, Matches-change}
use bullmq_durable.Redis.Represents.{Represents-seq_hash}
use bullmq_durable.Redis.Refines.Known.{
  Simulates, Matches-owner, Matches-put_steps, Matches-no_steps, Matches-cases, Known,
}
use bullmq_durable.Store.Steps
use bullmq_durable.Redis.Checkpoints

clone_step-clone_step : (st : StepState) → clone_step (clone_step st) ≡ clone_step st
unfolding clone_step
clone_step-clone_step st = λ k. record st { result = clone_value-clone_value st.result k }

if_SameSteps :
    (b : Bool) (st st' : StepState) (x : Option StepState) (y : Option StepState)
    → st ≡ clone_step st'
    → x ≡ clone_found y
    → (if b then some st else x) ≡ clone_found (if b then some st' else y)
unfolding clone_found
if_SameSteps true st st' x y e h = ap some e
if_SameSteps false st st' x y e h = h

SameSteps-insert :
    (key : String) (st st' : StepState) (ss ms : Dict StepState)
    → st ≡ clone_step st'
    → SameSteps ss ms
    → SameSteps (insert key st ss) (insert key st' ms)
SameSteps-insert key st st' ss ms e same name =
    rw (lookup-insert key name st ss, lookup-insert key name st' ms)
      (if_SameSteps (key =s= name) st st' _ _ e (same name))

if_removed :
    (b : Bool) (x y : Option StepState)
    → x ≡ clone_found y
    → (if b then none else x) ≡ clone_found (if b then none else y)
unfolding clone_found
if_removed true x y h = refl
if_removed false x y h = h

SameSteps-remove :
    (key : String) (ss ms : Dict StepState)
    → SameSteps ss ms
    → SameSteps (remove key ss) (remove key ms)
SameSteps-remove key ss ms same name =
    rw (lookup-remove key name ss, lookup-remove key name ms)
      (if_removed (key =s= name) _ _ (same name))

SameSteps-remove_keys :
    (keys : List String) (ss ms : Dict StepState)
    → SameSteps ss ms
    → SameSteps (remove_keys keys ss) (remove_keys keys ms)
unfolding remove_keys
SameSteps-remove_keys [] ss ms same = same
SameSteps-remove_keys (key ∷ keys) ss ms same =
    SameSteps-remove_keys keys _ _ (SameSteps-remove key ss ms same)

remove_keys-none : (keys : List String) → remove_keys keys [] ≡ []
unfolding remove_keys remove
remove_keys-none [] = refl
remove_keys-none (key ∷ keys) = remove_keys-none keys

pub get_step-Simulates :
    (id key : String) (now : ℕ) (r : Redis) (s : Store)
    → Matches now r s
    → Checkpoints.get_step id key r ≡ Steps.get_step id key s
unfolding Checkpoints.get_step Steps.get_step clone_found lookup find_step steps_of
get_step-Simulates id key now r s m = elim (Matches-cases now id r s m) [
  | inl u ↦ rw (u.no_record, find_step) (u.no_steps key)
  | inr k ↦ rw (k.in_memory, find_step) (k.same_steps key)
]

pub save_step-Simulates :
    (id key : String) (st : StepState) (now : ℕ) (r : Redis) (s : Store)
    → Matches now r s
    → (o : InstanceRecord) → lookup id s.records ≡ some o
    → Matches now (Checkpoints.save_step id key st r) (Steps.save_step id key st s)
unfolding Checkpoints.save_step Steps.save_step update_record put_steps
save_step-Simulates id key st now r s m o known = elim (Matches-cases now id r s m) [
  | inl u ↦ absurd (none-some o (sym u.no_record ∙ known))
  | inr k ↦
      rw (k.in_memory, update_record)
        (Matches-put_steps now id r s k _ _ m
          (SameSteps-insert key _ _ _ _ (sym (clone_step-clone_step st)) k.same_steps))
]
  where
    none-some : (x : InstanceRecord) → Option.none ≡ some x → ⊥
    none-some x e = cc

pub remove_steps-Simulates :
    (id : String) (keys : List String) (now : ℕ) (r : Redis) (s : Store)
    → Matches now r s
    → Matches now (Checkpoints.remove_steps id keys r) (Steps.remove_steps id keys s)
unfolding Checkpoints.remove_steps Steps.remove_steps update_record put_steps
remove_steps-Simulates id keys now r s m = elim (Matches-cases now id r s m) [
  | inl u ↦
      rw (u.no_record, update_record)
        (Matches-no_steps now id r s u _ m (
          subst (SameSteps (remove_keys keys (steps_of id r))) (remove_keys-none keys)
            (SameSteps-remove_keys keys _ [] u.no_steps)))
  | inr k ↦
      rw (k.in_memory, update_record)
        (Matches-put_steps now id r s k _ _ m (SameSteps-remove_keys keys _ _ k.same_steps))
]

seq-same :
    (h : Hash) (o : InstanceRecord) → Represents h o.instance → hash_seq h ≡ next_seq o.instance
unfolding hash_seq next_seq parse_instance clone_instance
seq-same h o e = ap (λ i. or_else i.step_seq 0 + 1) e.parsed

clone_step-fresh_step :
    (init : BeginStepInit) (n : ℕ) → clone_step (fresh_step init n) ≡ fresh_step init n
unfolding clone_step fresh_step clone_value
clone_step-fresh_step init n = refl

begin_found-Simulates :
    (id key : String) (init : BeginStepInit) (now : ℕ) (r : Redis) (s : Store)
    → Matches now r s
    → (k : Known id r s) (found : Option StepState)
    → Simulates now
        (create_step id key init k.hash (clone_found found) r)
        (begin_absent id key init k.owner found s)
unfolding create_step begin_absent clone_found add_step put_hash put_steps next_seq
begin_found-Simulates id key init now r s m k (some st) = (refl, m)
begin_found-Simulates id key init now r s m k none = (
  ap created (seq-same k.hash k.owner k.reads),
  Matches-change now id r _ s _ (some (seq_hash init.now k.hash))
      (some (insert key (fresh_step init (hash_seq k.hash)) (steps_of id r)))
      (some (add_step key init k.owner)) m (ChangedAt-insert id _ r.instances)
      (ChangedAt-insert id _ r.steps) (ChangedAt-insert id _ s.records) refl refl
      (
        Represents-seq_hash init.now k.hash k.owner.instance k.reads,
        SameSteps-insert key _ _ _ _
            (ap (fresh_step init) (seq-same k.hash k.owner k.reads)
              ∙ sym (clone_step-fresh_step init (next_seq k.owner.instance)))
            k.same_steps,
      ),
)

-- `beginStep`: the same answer, and the new step in both.
pub begin_step-Simulates :
    (id key : String) (init : BeginStepInit) (now : ℕ) (r : Redis) (s : Store)
    → Matches now r s
    → Simulates now (Checkpoints.begin_step id key init r) (Steps.begin_step id key init s)
unfolding Checkpoints.begin_step Steps.begin_step begin_record begin_live
begin_step-Simulates id key init now r s m = elim (Matches-cases now id r s m) [
  | inl u ↦ rw (u.no_hash, Checkpoints.begin_step, u.no_record, begin_record) (refl, m)
  | inr k ↦
      rw
        (
          k.in_redis, Checkpoints.begin_step, k.in_memory, begin_record, k.reads.has_status,
          begin_live,
        )
        (elim (Bool-cases (is_cancelled_status k.owner.instance.status)) [
          | inl e ↦ rw (e) (refl, m)
          | inr e ↦
              rw (e, k.same_steps key)
                (begin_found-Simulates id key init now r s m k (lookup key k.owner.steps))
        ])
]

clone_step-patch_step :
    (p : StepPatch) (st : StepState)
    → clone_step (patch_step p (clone_step st)) ≡ clone_step (patch_step p st)
unfolding clone_step patch_step
clone_step-patch_step p st =
    λ k. record (patch_step p st) { result = clone_value-clone_value st.result k }

update_found-Simulates :
    (id key : String) (p : StepPatch) (now : ℕ) (r : Redis) (s : Store)
    → Matches now r s
    → (k : Known id r s) (found : Option StepState) → lookup key k.owner.steps ≡ found
    → Matches now (update_found id key p (clone_found found) r) (record s {
      records = insert id (record (k.owner) { steps = patch_steps key p k.owner.steps }) s.records;
    })
unfolding update_found clone_found Checkpoints.save_step patch_steps insert
update_found-Simulates id key p now r s m k none e =
    rw (e, patch_steps) (Matches-owner now id r s k m)
update_found-Simulates id key p now r s m k (some st) e =
    rw (e, patch_steps)
      (Matches-put_steps now id r s k _ _ m
        (SameSteps-insert key _ _ _ _ (clone_step-patch_step p st) k.same_steps))

pub update_step-Simulates :
    (id key : String) (p : StepPatch) (now : ℕ) (r : Redis) (s : Store)
    → Matches now r s
    → Matches now (Checkpoints.update_step id key p r) (Steps.update_step id key p s)
unfolding Checkpoints.update_step Checkpoints.get_step Steps.update_step update_record patch_steps
    lookup clone_found update_found
update_step-Simulates id key p now r s m = elim (Matches-cases now id r s m) [
  | inl u ↦ rw (u.no_steps key, update_found, u.no_record, update_record) m
  | inr k ↦
      rw (k.same_steps key, update_found, k.in_memory, update_record)
        (update_found-Simulates id key p now r s m k _ refl)
]
