-- ===== src/Redis/Matches.antt =====
-- When the two stores hold the same state: what a client can read of an instance, its steps and
-- its lock agrees.
use bullmq_durable.Base.{
  ℕ, String, Option, none, some, Bool, true, false, ◌≡◌, ◌≤◌, refl, sym, ◌∙◌, ap, eq_iff, inl, inr,
  Bool-cases, ◌=s=◌, if◌then◌else◌, arith, ltb, or_else, [],
}
use mathlib.Core.Path.{subst}
use bullmq_durable.Base.Dict.{Dict, lookup, insert, lookup-insert}
use bullmq_durable.Types.{InstanceState, StepState}
use bullmq_durable.Store.{Store, InstanceRecord, LockRecord, clone_instance}
use bullmq_durable.Store.Steps.{clone_found}
use bullmq_durable.Redis.{Redis, Hash, live, get_lock, steps_of}
use bullmq_durable.Redis.Fields.{parse_instance}

-- The hash reads as the instance, and has a status.
pub record Represents (h : Hash) (i : InstanceState) : Type 0 where
  pub parsed : parse_instance h ≡ clone_instance i
  pub has_status : h.status ≡ some i.status

abbrev pub SameSteps : Dict StepState → Dict StepState → Type 0
SameSteps ss ms = (key : String) → lookup key ss ≡ clone_found (lookup key ms)

-- The hash and the steps of one id in Redis, and its record in memory.
abbrev pub Agree : Option Hash → Dict StepState → Option InstanceRecord → Type 0
Agree none ss none = SameSteps ss []
Agree (some h) ss (some r) = Represents h r.instance × SameSteps ss r.steps
Agree none ss (some r) = ⊥
Agree (some h) ss none = ⊥

-- The two stores agree on every id. `now` is the time of the next call: a lock that is over by then
-- counts for none.
pub record Matches (now : ℕ) (r : Redis) (s : Store) : Type 0 where
  pub entries : (id : String) → Agree (lookup id r.instances) (steps_of id r) (lookup id s.records)
  pub locked : (id : String) → get_lock id now r ≡ live now (lookup id s.locks)

live-live :
    (now later : ℕ) (o : Option LockRecord) → now ≤ later → live later (live now o) ≡ live later o
unfolding live
live-live now later none h = refl
live-live now later (some l) h = elim (Bool-cases (ltb now l.expires_at)) [
  | inl e ↦ rw (e) refl
  | inr e ↦ rw (e) (ground (arith))
]

-- Stores that match go on to match as time passes.
pub Matches-later :
    (now later : ℕ) (r : Redis) (s : Store) → now ≤ later → Matches now r s → Matches later r s
unfolding get_lock
Matches-later now later r s h m = record {
  entries = m.entries;
  locked = λ id.
      sym (live-live now later _ h) ∙ (ap (live later) (m.locked id) ∙ live-live now later _ h);
}

-- `d'` is `d` but for what stands at `id`.
abbrev pub ChangedAt {ℓ} : {A : Type ℓ} → String → Option A → Dict A → Dict A → Type ℓ
ChangedAt id o d d' = (name : String) → lookup name d' ≡ (if id =s= name then o else lookup name d)

pub ChangedAt-insert {ℓ} :
    {A : Type ℓ} (id : String) (v : A) (d : Dict A) → ChangedAt id (some v) d (insert id v d)
ChangedAt-insert id v d name = lookup-insert id name v d

pub ChangedAt-same {ℓ} :
    {A : Type ℓ} (id : String) (o : Option A) (d : Dict A) → lookup id d ≡ o → ChangedAt id o d d
ChangedAt-same id o d h name = elim (Bool-cases (id =s= name)) [
  | inl e ↦ rw (e) (subst (λ x. lookup x d ≡ o) ((eq_iff id name).0 e) h)
  | inr e ↦ rw (e) refl
]

if_Agree :
    (b : Bool) (h h' : Option Hash) (ss ss' : Option (Dict StepState))
    (m m' : Option InstanceRecord)
    → Agree h' (or_else ss' []) m'
    → Agree h (or_else ss []) m
    → Agree (if b then h' else h) (or_else (if b then ss' else ss) []) (if b then m' else m)
if_Agree true h h' ss ss' m m' a' a = a'
if_Agree false h h' ss ss' m m' a' a = a

-- A call that changes what both stores hold of one id, and leaves the locks, keeps them matched if
-- they agree on that id after it.
pub Matches-change :
    (now : ℕ) (id : String) (r r' : Redis) (s s' : Store) (h' : Option Hash)
    (ss' : Option (Dict StepState)) (m' : Option InstanceRecord)
    → Matches now r s
    → ChangedAt id h' r.instances r'.instances
    → ChangedAt id ss' r.steps r'.steps
    → ChangedAt id m' s.records s'.records
    → r'.locks ≡ r.locks
    → s'.locks ≡ s.locks
    → Agree h' (or_else ss' []) m'
    → Matches now r' s'
unfolding get_lock steps_of
Matches-change now id r r' s s' h' ss' m' m ch cs cm lr ls a = record {
  entries = λ name.
      rw (ch name, cs name, cm name) (if_Agree (id =s= name) _ _ _ _ _ _ a (m.entries name));
  locked = λ name.
      ap (λ x. live now (lookup name x)) lr
      ∙ (m.locked name ∙ ap (λ x. live now (lookup name x)) (sym ls));
}
