-- ===== src/Reaper/Alive.antt =====
-- The reaper never deletes the state of a job that exists.
use Prim.Native.String.{slice, len}
use text.Mathlib.TextPositions.{starts_with-append, len-append, slice-append_right}
use text.Mathlib.TextLemmas.{append_assoc}
use bullmq_durable.Types.{InstanceStatus}
use bullmq_durable.Store.Instances.{cancel_instance, fenced_out, terminal_transition}
use bullmq_durable.Store.Admin.{remove_instances}
use bullmq_durable.Phase.{create_instance_id}
use bullmq_durable.Store.{Store}
use bullmq_durable.Reaper.{
  Answers, JobsExist, Reaper, job_id_of, dead_ids, pass, reap_bucket, reap_buckets, reap_terminal,
  reconcile_active, reconcile_ids, terminal_statuses,
}
use bullmq_durable.Base.{
  Option-cases, arith, ◌||◌, [], ◌∷◌, All, Bool, Bool-cases, List, String, ◌+++◌, starts_with, ap,
  false, if◌then◌else◌, inl, inr, none, suc, sym, true, zero, ℕ, ◌∙◌, ◌≢◌, ◌≡◌, refl,
}
use bullmq_durable.Base.Dict.{lookup-insert, eq_ne, lookup, lookup-remove}

-- No id of the list is `id`.
abbrev Avoids : String → List String → Type 0
Avoids id = All (λ x. x ≢ id)

dead_ids-Avoids :
    (r : Reaper) (exists : JobsExist) (id : String) (ids : List String)
    → exists (job_id_of r id) ≡ true
    → Avoids id (dead_ids r exists ids)
unfolding dead_ids
dead_ids-Avoids r exists id [] alive = tt
dead_ids-Avoids r exists id (x ∷ xs) alive = elim (Bool-cases (exists (job_id_of r x))) [
  | inl there ↦ rw (there) (dead_ids-Avoids r exists id xs alive)
  | inr gone ↦ rw (gone) (
    (λ same. absurd (clash (sym gone ∙ (ap (λ y. exists (job_id_of r y)) same ∙ alive)))),
    dead_ids-Avoids r exists id xs alive,
  )
]
  where
    clash : ¬ (false ≡ true)
    clash q = cc

remove_instances-lookup :
    (id : String) (ids : List String) (s : Store)
    → Avoids id ids
    → lookup id (remove_instances ids s).records ≡ lookup id s.records
unfolding remove_instances
remove_instances-lookup id [] s h = refl
remove_instances-lookup id (x ∷ xs) s (ne, h) =
    remove_instances-lookup id xs _ h ∙ (lookup-remove x id s.records ∙ simp (eq_ne x id ne))

if_lookup :
    (id : String) (b : Bool) (x y : ℕ × Store) (s : Store)
    → lookup id x.1.records ≡ lookup id s.records
    → lookup id y.1.records ≡ lookup id s.records
    → lookup id (if b then x else y).1.records ≡ lookup id s.records
if_lookup id true x y s h k = h
if_lookup id false x y s h k = k

reap_bucket-lookup :
    (r : Reaper) (exists : ℕ → JobsExist) (status : InstanceStatus) (fuel : ℕ) (id : String)
    (s : Store)
    → ((left : ℕ) → exists left (job_id_of r id) ≡ true)
    → lookup id (reap_bucket r exists status fuel s).1.records ≡ lookup id s.records
unfolding reap_bucket
reap_bucket-lookup r exists status zero id s alive = refl
reap_bucket-lookup r exists status (suc fuel) id s alive =
    let once = remove_instances-lookup id _ s (dead_ids-Avoids r (exists fuel) id _ (alive fuel)) in
    if_lookup id _ _ _ s once (reap_bucket-lookup r exists status fuel id _ alive ∙ once)

reap_buckets-lookup :
    (r : Reaper) (answers : Answers) (l : List InstanceStatus) (id : String) (s : Store)
    → ((status : InstanceStatus) (left : ℕ) → answers.terminal status left (job_id_of r id) ≡ true)
    → lookup id (reap_buckets r answers l s).1.records ≡ lookup id s.records
unfolding reap_buckets
reap_buckets-lookup r answers [] id s alive = refl
reap_buckets-lookup r answers (status ∷ rest) id s alive =
    reap_buckets-lookup r answers rest id _ alive
    ∙ reap_bucket-lookup r (answers.terminal status) status 4 id s (alive status)

-- A call of `cancelInstance` keeps the other records.
cancel_instance-lookup :
    (id x : String) (now : ℕ) (s : Store)
    → x ≢ id
    → lookup id (cancel_instance x none now s).1.records ≡ lookup id s.records
unfolding cancel_instance terminal_transition fenced_out
cancel_instance-lookup id x now s ne = elim (Option-cases (lookup x s.records)) [
  | inl absent ↦ rw (absent, terminal_transition) refl
  | inr (q, found) ↦
      rw (found, terminal_transition) (lookup-insert x id _ s.records ∙ simp (eq_ne x id ne))
]

store_if :
    (id : String) (b : Bool) (x y s : Store)
    → lookup id x.records ≡ lookup id s.records
    → (b ≡ false → lookup id y.records ≡ lookup id s.records)
    → lookup id (if b then x else y).records ≡ lookup id s.records
store_if id true x y s h k = h
store_if id false x y s h k = k refl

-- An id whose job is gone is not one whose job exists.
gone_ne :
    (r : Reaper) (exists : JobsExist) (x id : String) (b : Bool)
    → exists (job_id_of r id) ≡ true
    → (exists (job_id_of r x) || b) ≡ false
    → x ≢ id
gone_ne r exists x id b alive gone same =
    let there : exists (job_id_of r x) ≡ true = ap (λ y. exists (job_id_of r y)) same ∙ alive in
    ground (arith, there, gone)

reconcile_ids-lookup :
    (r : Reaper) (answers : Answers) (now : ℕ) (ids : List String) (id : String) (s : Store)
    → answers.active (job_id_of r id) ≡ true
    → lookup id (reconcile_ids r answers now ids s).1.records ≡ lookup id s.records
unfolding reconcile_ids
reconcile_ids-lookup r answers now [] id s alive = refl
reconcile_ids-lookup r answers now (x ∷ xs) id s alive =
    reconcile_ids-lookup r answers now xs id _ alive
    ∙ store_if id _ s _ s refl
        (λ gone. cancel_instance-lookup id x now s (gone_ne r answers.active x id _ alive gone))

strip_prefix :
    (p t : String)
    → (if starts_with (p +++ t) p then slice (p +++ t) (len p) (len (p +++ t)) else p +++ t) ≡ t
strip_prefix p t =
    ap (λ b. if b then slice (p +++ t) (len p) (len (p +++ t)) else p +++ t)
      (starts_with-append p t)
    ∙ (ap (slice (p +++ t) (len p)) (len-append p t) ∙ slice-append_right p t)

-- The job of the instance that `createInstanceId` names.
pub job_id_of-create_instance_id :
    (r : Reaper) (job_id : String) → job_id_of r (create_instance_id r.queue_name job_id) ≡ job_id
unfolding job_id_of create_instance_id
job_id_of-create_instance_id r job_id =
    ap (job_id_of r) (sym (append_assoc r.queue_name ":" job_id))
    ∙ strip_prefix (r.queue_name +++ ":") job_id

pass-kept :
    (r : Reaper) (answers : Answers) (reconcile : Bool) (now : ℕ) (id : String) (s : Store)
    → ((status : InstanceStatus) (left : ℕ) → answers.terminal status left (job_id_of r id) ≡ true)
    → answers.active (job_id_of r id) ≡ true
    → lookup id (pass r answers reconcile now s).records ≡ lookup id s.records
unfolding pass reap_terminal reconcile_active
pass-kept r answers false now id s reaped active =
    reap_buckets-lookup r answers terminal_statuses id s reaped
pass-kept r answers true now id s reaped active =
    reap_buckets-lookup r answers terminal_statuses id _ reaped
    ∙ reconcile_ids-lookup r answers now _ id s active

-- A pass of the reaper, with or without reconciling, leaves the record of an instance of its queue
-- exactly as it was, if every answer that the pass gets says that the instance's job exists.
pub pass-lookup :
    (r : Reaper) (answers : Answers) (reconcile : Bool) (now : ℕ) (job_id : String) (s : Store)
    → ((status : InstanceStatus) (left : ℕ) → answers.terminal status left job_id ≡ true)
    → answers.active job_id ≡ true
    → lookup (create_instance_id r.queue_name job_id) (pass r answers reconcile now s).records
      ≡ lookup (create_instance_id r.queue_name job_id) s.records
pass-lookup r answers reconcile now job_id s reaped active =
    let same = job_id_of-create_instance_id r job_id in
    pass-kept r answers reconcile now (create_instance_id r.queue_name job_id) s
      (λ status left. ap (answers.terminal status left) same ∙ reaped status left)
      (ap answers.active same ∙ active)
