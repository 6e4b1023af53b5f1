-- ===== src/Actions/Reset.antt =====
-- The reset that `retry` and `retryCompensation` of run.ts make of a stored run: which steps are
-- deleted.
use bullmq_durable.Base.{
  ℕ, String, Bool, true, false, ◌&&◌, ◌||◌, Option, none, some, ◌≡◌, refl, sym, ap, ◌∙◌, inl, inr,
  Bool-cases, List, [], ◌∷◌, map, filter, ◌=s=◌, if◌then◌else◌, arith, eq_iff,
}
use mathlib.Core.Path.{subst}
use bullmq_durable.Base.Dict.{Dict, lookup, remove, lookup-insert_self, lookup-remove}
use bullmq_durable.Phase.{storage_key_of_step}
use bullmq_durable.Types.{InstanceStatus, StepState}
use bullmq_durable.Store.{Store, InstanceRecord, clone_step, clone_instance, update_record}
use bullmq_durable.Store.Instances.{
  InstanceField, InstancePatch, get_instance, update_instance, clear_instance_fields, clear_fields,
  patch_record, patch_instance, no_patch,
}
use bullmq_durable.Store.Steps.{
  get_steps, sort_steps, insert_step, step_before, remove_keys, remove_steps, find_step,
}
use bullmq_durable.Store.Admin.{contains}
use bullmq_durable.Store.Fence.{get_status}
use bullmq_durable.Actions.Run.{reset_run}

-- Each step stands under its own storage key, once.
abbrev pub Keyed : Dict StepState → Type 0
Keyed [] = Unit
Keyed ((key, st) ∷ rest) = (storage_key_of_step st ≡ key) × ((lookup key rest ≡ none) × Keyed rest)

-- What is left of a step that is found, if the steps that `picks` picks are deleted.
abbrev pub kept : (StepState → Bool) → Option StepState → Option StepState
kept picks none = none
kept picks (some st) = if picks st then none else some st

lookup-remove_keys :
    (keys : List String) (key : String) (d : Dict StepState)
    → lookup key (remove_keys keys d) ≡ (if contains key keys then none else lookup key d)
unfolding remove_keys contains
lookup-remove_keys [] key d = refl
lookup-remove_keys (k ∷ keys) key d =
    ground (arith, lookup-remove_keys keys key (remove k d), lookup-remove k key d)

lookup-update_record :
    (id : String) (f : InstanceRecord → InstanceRecord) (s : Store) (r : InstanceRecord)
    → lookup id s.records ≡ some r
    → lookup id (update_record f id s).records ≡ some (f r)
unfolding update_record
lookup-update_record id f s r e = rw (e, update_record) (lookup-insert_self id _ s.records)

lookup-update_instance :
    (id : String) (p : InstancePatch) (now : ℕ) (s : Store) (r : InstanceRecord)
    → lookup id s.records ≡ some r
    → lookup id (update_instance id p now s).1.records ≡ some (patch_record p now r)
unfolding update_instance
lookup-update_instance id p now s r e = rw (e, update_instance) (lookup-insert_self id _ s.records)

get_steps-found :
    (id : String) (s : Store) (r : InstanceRecord)
    → lookup id s.records ≡ some r
    → get_steps id s ≡ sort_steps (map (λ e. clone_step e.1) r.steps)
unfolding get_steps
get_steps-found id s r e = rw (e, get_steps) refl

pub get_instance-found :
    (id : String) (s : Store) (r : InstanceRecord)
    → lookup id s.records ≡ some r
    → get_instance id s ≡ some (clone_instance r.instance)
unfolding get_instance
get_instance-found id s r e = rw (e, get_instance) refl

module _ (picks : StepState → Bool) where
  -- A step of the list is picked and has the key.
  picked : String → List StepState → Bool
  picked key [] = false
  picked key (st ∷ sts) = (picks st && (storage_key_of_step st =s= key)) || picked key sts

  abbrev picked_found : Option StepState → Bool
  picked_found none = false
  picked_found (some st) = picks st

  contains-map :
      (key : String) (sts : List StepState)
      → contains key (map storage_key_of_step (filter picks sts)) ≡ picked key sts
  unfolding contains picked
  contains-map key [] = refl
  contains-map key (st ∷ sts) = elim (Bool-cases (picks st)) [
    | inl e ↦ rw (e, contains-map key sts) refl
    | inr e ↦ rw (e, contains-map key sts) refl
  ]

  or-swap : (a b c : Bool) → (a || (b || c)) ≡ (b || (a || c))
  or-swap true true c = refl
  or-swap true false c = refl
  or-swap false true c = refl
  or-swap false false c = refl

  picked-insert_step :
      (key : String) (st : StepState) (sts : List StepState)
      → picked key (insert_step st sts) ≡ picked key (st ∷ sts)
  unfolding picked insert_step
  picked-insert_step key st [] = refl
  picked-insert_step key st (x ∷ sts) = elim (Bool-cases (step_before st x)) [
    | inl e ↦ rw (e) refl
    | inr e ↦
        rw (e, picked-insert_step key st sts)
          (or-swap (picks x && (storage_key_of_step x =s= key))
            (picks st && (storage_key_of_step st =s= key)) (picked key sts))
  ]

  picked-sort_steps :
      (key : String) (sts : List StepState) → picked key (sort_steps sts) ≡ picked key sts
  unfolding picked sort_steps
  picked-sort_steps key [] = refl
  picked-sort_steps key (st ∷ sts) =
      picked-insert_step key st (sort_steps sts)
      ∙ ap (λ b. (picks st && (storage_key_of_step st =s= key)) || b) (picked-sort_steps key sts)

  picked-lookup :
      ((st : StepState) → picks (clone_step st) ≡ picks st)
      → (key : String) (d : Dict StepState) → Keyed d
      → picked key (map (λ e. clone_step e.1) d) ≡ picked_found (lookup key d)
  unfolding picked lookup clone_step storage_key_of_step
  picked-lookup same key [] keyed = refl
  picked-lookup same key ((name, st) ∷ d) (own, (fresh, keyed)) = elim (Bool-cases (name =s= key)) [
    | inl e ↦
        rw
          (
            same st,
            own,
            e,
            picked-lookup same key d keyed,
            sym (subst (λ x. none ≡ lookup x d) ((eq_iff name key).0 e) (sym fresh)),
          )
          (and-or (picks st))
    | inr e ↦ rw (same st, own, e, picked-lookup same key d keyed) (no-and (picks st) _)
  ]
    where
      and-or : (a : Bool) → ((a && true) || false) ≡ a
      and-or true = refl
      and-or false = refl

      no-and : (a b : Bool) → ((a && false) || b) ≡ b
      no-and true b = refl
      no-and false b = refl

  if_picked : (o : Option StepState) → (if picked_found o then none else o) ≡ kept picks o
  if_picked none = refl
  if_picked (some st) = refl

  -- The steps that are left after the picked ones are removed by their keys.
  pub lookup-reset :
      ((st : StepState) → picks (clone_step st) ≡ picks st)
      → (key : String) (d : Dict StepState) → Keyed d
      → lookup key (
          remove_keys
            (map storage_key_of_step (filter picks (sort_steps (map (λ e. clone_step e.1) d))))
            d)
        ≡ kept picks (lookup key d)
  lookup-reset same key d keyed =
      lookup-remove_keys _ key d
      ∙ (ap (λ b. if b then none else lookup key d)
            (contains-map key _ ∙ (picked-sort_steps key _ ∙ picked-lookup same key d keyed))
          ∙ if_picked (lookup key d))

  -- The run has the status, and its steps are those of `steps` that are not picked.
  pub record Reset (id : String) (st : InstanceStatus) (steps : Dict StepState) (s : Store)
      : Type 0 where
    pub status : get_status id s ≡ some st
    pub left : (key : String) → find_step id key s ≡ kept picks (lookup key steps)

  unfoldable pub reset_record :
      List InstanceField → InstanceStatus → ℕ → InstanceRecord → List StepState → InstanceRecord
  reset_record fields st now r steps =
      patch_record (record no_patch { status = some st }) now
        (record r {
          steps = remove_keys (map storage_key_of_step (filter picks steps)) r.steps;
          instance = clear_fields fields r.instance;
        })

  pub lookup-reset_run :
      (id : String) (fields : List InstanceField) (st : InstanceStatus) (now : ℕ) (s : Store)
      (r : InstanceRecord)
      → lookup id s.records ≡ some r
      → lookup id (reset_run id picks fields st now s).records
        ≡ some (reset_record fields st now r (sort_steps (map (λ e. clone_step e.1) r.steps)))
  unfolding reset_run reset_record clear_instance_fields remove_steps
  lookup-reset_run id fields st now s r e =
      lookup-update_instance id _ now _ _
        (lookup-update_record id _ _ _ (lookup-update_record id _ s r e))
      ∙ ap (λ steps. some (reset_record fields st now r steps)) (get_steps-found id s r e)

  pub reset_run-Reset :
      ((st : StepState) → picks (clone_step st) ≡ picks st)
      → (id : String) (fields : List InstanceField) (st : InstanceStatus) (now : ℕ) (s : Store)
        (r : InstanceRecord)
      → lookup id s.records ≡ some r
      → Keyed r.steps
      → Reset id st r.steps (reset_run id picks fields st now s)
  unfolding get_status get_instance find_step reset_record patch_record patch_instance
      clone_instance
  reset_run-Reset same id fields st now s r e keyed = record {
    status = rw (lookup-reset_run id fields st now s r e, get_instance) refl;
    left = λ key.
        rw (lookup-reset_run id fields st now s r e, find_step)
          (lookup-reset same key r.steps keyed);
  }
