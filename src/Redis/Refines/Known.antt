-- ===== src/Redis/Refines/Known.antt =====
-- Stores that match both know an instance or both do not, and a write of one instance in both
-- keeps them matched.
use bullmq_durable.Base.{ℕ, String, Option, none, some, ◌≡◌, refl, ap, ◌⊎◌, inl, inr, ◌∙◌, []}
use bullmq_durable.Base.Dict.{Dict, lookup, insert}
use bullmq_durable.Types.{StepState}
use bullmq_durable.Store.{Store, InstanceRecord}
use bullmq_durable.Redis.{Redis, Hash, get_lock, steps_of, live}
use bullmq_durable.Redis.Lifecycle.{put_hash}
use bullmq_durable.Redis.Checkpoints.{put_steps}
use bullmq_durable.Redis.Matches.{
  Agree, Represents, SameSteps, Matches, ChangedAt-insert, ChangedAt-same, Matches-change,
}

-- The answers are the same, and the stores match after the call.
abbrev pub Simulates {ℓ} : {A : Type ℓ} → ℕ → A × Redis → A × Store → Type ℓ
Simulates now f g = (f.0 ≡ g.0) × Matches now f.1 g.1

pub record Unknown (id : String) (r : Redis) (s : Store) : Type 0 where
  pub no_hash : lookup id r.instances ≡ none
  pub no_record : lookup id s.records ≡ none
  pub no_steps : SameSteps (steps_of id r) []

pub record Known (id : String) (r : Redis) (s : Store) : Type 0 where
  pub hash : Hash
  pub owner : InstanceRecord
  pub in_redis : lookup id r.instances ≡ some hash
  pub in_memory : lookup id s.records ≡ some owner
  pub reads : Represents hash owner.instance
  pub same_steps : SameSteps (steps_of id r) owner.steps

Agree-Known :
    (id : String) (r : Redis) (s : Store) (h : Option Hash) (o : Option InstanceRecord)
    → lookup id r.instances ≡ h
    → lookup id s.records ≡ o
    → Agree h (steps_of id r) o
    → Unknown id r s ⊎ Known id r s
Agree-Known id r s none none eh eo a = inl (record { no_hash = eh; no_record = eo; no_steps = a })
Agree-Known id r s (some h) (some o) eh eo (e, ss) =
    inr (record { hash = h; owner = o; in_redis = eh; in_memory = eo; reads = e; same_steps = ss })
Agree-Known id r s none (some o) eh eo a = absurd a
Agree-Known id r s (some h) none eh eo a = absurd a

pub Matches-cases :
    (now : ℕ) (id : String) (r : Redis) (s : Store)
    → Matches now r s
    → Unknown id r s ⊎ Known id r s
Matches-cases now id r s m =
    Agree-Known id r s (lookup id r.instances) (lookup id s.records) refl refl (m.entries id)

-- What the index work of a script leaves alone.
pub record SameData (r r' : Redis) : Type 0 where
  pub instances : r'.instances ≡ r.instances
  pub steps : r'.steps ≡ r.steps
  pub locks : r'.locks ≡ r.locks

pub SameData-refl : (r : Redis) → SameData r r
SameData-refl r = record { instances = refl; steps = refl; locks = refl }

pub Matches-SameData :
    (now : ℕ) (r r' : Redis) (s : Store) → SameData r r' → Matches now r s → Matches now r' s
unfolding get_lock steps_of
Matches-SameData now r r' s d m = record {
  entries = λ id. rw (d.instances, d.steps) (m.entries id);
  locked = λ id. ap (λ x. live now (lookup id x)) d.locks ∙ m.locked id;
}

pub Matches-put_hash :
    (now : ℕ) (id : String) (r : Redis) (s : Store) (h : Hash) (o : InstanceRecord)
    → Matches now r s
    → Represents h o.instance
    → SameSteps (steps_of id r) o.steps
    → Matches now (put_hash id h r) (record s { records = insert id o s.records })
unfolding put_hash steps_of
Matches-put_hash now id r s h o m e ss =
    Matches-change now id r _ s _ (some h) (lookup id r.steps) (some o) m
      (ChangedAt-insert id h r.instances) (ChangedAt-same id _ r.steps refl)
      (ChangedAt-insert id o s.records) refl refl (e, ss)

pub Matches-put_steps :
    (now : ℕ) (id : String) (r : Redis) (s : Store) (k : Known id r s) (ss : Dict StepState)
    (ms : Dict StepState)
    → Matches now r s
    → SameSteps ss ms
    → Matches now
        (put_steps id ss r)
        (record s { records = insert id (record (k.owner) { steps = ms }) s.records })
unfolding put_steps
Matches-put_steps now id r s k ss ms m e =
    Matches-change now id r _ s _ (some k.hash) (some ss) (some (record (k.owner) { steps = ms })) m
      (ChangedAt-same id _ r.instances k.in_redis) (ChangedAt-insert id ss r.steps)
      (ChangedAt-insert id _ s.records) refl refl (k.reads, e)

-- Steps are written where neither store knows the instance, and there are still none.
pub Matches-no_steps :
    (now : ℕ) (id : String) (r : Redis) (s : Store) (u : Unknown id r s) (ss : Dict StepState)
    → Matches now r s
    → SameSteps ss []
    → Matches now (put_steps id ss r) s
unfolding put_steps
Matches-no_steps now id r s u ss m e =
    Matches-change now id r _ s _ none (some ss) none m (ChangedAt-same id _ r.instances u.no_hash)
      (ChangedAt-insert id ss r.steps) (ChangedAt-same id _ s.records u.no_record) refl refl e

-- Memory writes its record again as it is.
pub Matches-owner :
    (now : ℕ) (id : String) (r : Redis) (s : Store) (k : Known id r s)
    → Matches now r s
    → Matches now r (record s { records = insert id k.owner s.records })
unfolding steps_of
Matches-owner now id r s k m =
    Matches-change now id r _ s _ (some k.hash) (lookup id r.steps) (some k.owner) m
      (ChangedAt-same id _ r.instances k.in_redis) (ChangedAt-same id _ r.steps refl)
      (ChangedAt-insert id _ s.records) refl refl (k.reads, k.same_steps)
