-- ===== src/Actions/Retried.antt =====
-- What `retry` and `retryCompensation` of run.ts do to the stored run.
use bullmq_durable.Base.{ℕ, String, Option, none, some, ◌≡◌, refl, sym, ap, ◌∙◌, map, if◌then◌else◌}
use mathlib.Core.Path.{subst}
use bullmq_durable.Base.Dict.{lookup}
use bullmq_durable.Types.{InstanceState, InstanceStatus, StepState, StepStatus, is_failed_step}
use bullmq_durable.Store.{Store, InstanceRecord, clone_step, clone_instance}
use bullmq_durable.Store.Instances.{get_instance, patch_record, patch_instance}
use bullmq_durable.Store.Steps.{sort_steps}
use bullmq_durable.Errors.{Thrown}
use bullmq_durable.Actions.Reset.{
  Reset, Keyed, kept, get_instance-found, lookup-reset, lookup-reset_run, reset_run-Reset,
  reset_record,
}
use bullmq_durable.Executor.{Deps, Tick, Body, StepOptions, normal}
use bullmq_durable.Executor.Step.{execute, storage_key}
use bullmq_durable.Executor.Due.{Runs, execute_fresh}
use bullmq_durable.Actions.{BullQueue, World, RunHandle, Acted}
use bullmq_durable.Actions.Run.{
  instance_id_of, reset_run, failed_any, failed_internal, failed_error_fields,
  compensation_error_fields, retry_run, retry_compensation, retry_with, retry_compensation_with,
  with_instance, revive, after_revive,
}

module _ {Q : Type 0} (bull : BullQueue Q) where
  store-after_revive :
      (run : RunHandle) (i : InstanceState) (message : String) (s : Store) (x : Option Thrown × Q)
      → (after_revive bull run i message s x).1.store ≡ s
  unfolding after_revive
  store-after_revive run i message s (some e, q) = refl
  store-after_revive run i message s (none, q) = refl

  store-retry_with :
      (run : RunHandle) (now : ℕ) (i : InstanceState) (w : World Q)
      → (retry_with bull run now InstanceStatus.failed i w).1.store
        ≡ reset_run
            (instance_id_of run)
            failed_any
            failed_error_fields
            InstanceStatus.running
            now
            w.store
  unfolding retry_with revive
  store-retry_with run now i w = store-after_revive run i _ _ _

  store-retry_compensation_with :
      (run : RunHandle) (now : ℕ) (i : InstanceState) (w : World Q)
      → (retry_compensation_with bull run now InstanceStatus.compensation_failed i w).1.store
        ≡ reset_run
            (instance_id_of run)
            failed_internal
            compensation_error_fields
            InstanceStatus.compensating
            now
            w.store
  unfolding retry_compensation_with revive
  store-retry_compensation_with run now i w = store-after_revive run i _ _ _

  with_instance-found :
      (run : RunHandle) (action : InstanceState → World Q → Acted × World Q) (w : World Q)
      (i : InstanceState)
      → get_instance (instance_id_of run) w.store ≡ some i
      → with_instance bull run action w ≡ action i w
  unfolding with_instance
  with_instance-found run action w i e = rw (e, with_instance) refl

  store-retry_run :
      (run : RunHandle) (now : ℕ) (w : World Q) (r : InstanceRecord)
      → lookup (instance_id_of run) w.store.records ≡ some r
      → r.instance.status ≡ InstanceStatus.failed
      → (retry_run bull run now w).1.store
        ≡ reset_run
            (instance_id_of run)
            failed_any
            failed_error_fields
            InstanceStatus.running
            now
            w.store
  unfolding retry_run clone_instance
  store-retry_run run now w r e st =
      ap (λ x. x.1.store) (with_instance-found run _ w _ (get_instance-found _ w.store r e))
      ∙ (ap (λ x. (retry_with bull run now x (clone_instance r.instance) w).1.store) st
          ∙ store-retry_with run now _ w)

  store-retry_compensation :
      (run : RunHandle) (now : ℕ) (w : World Q) (r : InstanceRecord)
      → lookup (instance_id_of run) w.store.records ≡ some r
      → r.instance.status ≡ InstanceStatus.compensation_failed
      → (retry_compensation bull run now w).1.store
        ≡ reset_run
            (instance_id_of run)
            failed_internal
            compensation_error_fields
            InstanceStatus.compensating
            now
            w.store
  unfolding retry_compensation clone_instance
  store-retry_compensation run now w r e st =
      ap (λ x. x.1.store) (with_instance-found run _ w _ (get_instance-found _ w.store r e))
      ∙ (ap (λ x. (retry_compensation_with bull run now x (clone_instance r.instance) w).1.store) st
          ∙ store-retry_compensation_with run now _ w)

  -- `retry` of a failed run whose steps stand under their own keys: the run is running again, its
  -- failed steps are gone and every other step is as it was.
  pub retry_run-Reset :
      (run : RunHandle) (now : ℕ) (w : World Q) (r : InstanceRecord)
      → lookup (instance_id_of run) w.store.records ≡ some r
      → r.instance.status ≡ InstanceStatus.failed
      → Keyed r.steps
      → Reset failed_any
          (instance_id_of run)
          InstanceStatus.running
          r.steps
          (retry_run bull run now w).1.store
  unfolding clone_step
  retry_run-Reset run now w r e st keyed =
      subst (Reset failed_any (instance_id_of run) InstanceStatus.running r.steps)
        (sym (store-retry_run run now w r e st))
        (reset_run-Reset failed_any (λ x. refl) _ failed_error_fields _ now w.store r e keyed)

  -- `retryCompensation` of a run whose compensation failed, with its steps under their own keys: the
  -- run is compensating again, its failed steps of the compensation and failure phases are gone and
  -- every other step is as it was.
  pub retry_compensation-Reset :
      (run : RunHandle) (now : ℕ) (w : World Q) (r : InstanceRecord)
      → lookup (instance_id_of run) w.store.records ≡ some r
      → r.instance.status ≡ InstanceStatus.compensation_failed
      → Keyed r.steps
      → Reset failed_internal
          (instance_id_of run)
          InstanceStatus.compensating
          r.steps
          (retry_compensation bull run now w).1.store
  unfolding clone_step
  retry_compensation-Reset run now w r e st keyed =
      subst (Reset failed_internal (instance_id_of run) InstanceStatus.compensating r.steps)
        (sym (store-retry_compensation run now w r e st))
        (reset_run-Reset failed_internal (λ x. refl) _ compensation_error_fields _ now w.store r e
          keyed)

  -- After `retry` of a failed run whose steps stand under their own keys, a normal tick on the store
  -- that it leaves runs the body of a step that was stored as failed, as the first attempt.
  pub retry_run-Runs :
      (run : RunHandle) (now : ℕ) (w : World Q) (r : InstanceRecord) (d : Deps) (key : String)
      (o : StepOptions) (fn : Body) (t : Tick) (st : StepState)
      → lookup (instance_id_of run) w.store.records ≡ some r
      → r.instance.status ≡ InstanceStatus.failed
      → Keyed r.steps
      → d.mode ≡ normal
      → d.instance_id ≡ instance_id_of run
      → t.store ≡ (retry_run bull run now w).1.store
      → lookup (storage_key key t) r.steps ≡ some st
      → st.status ≡ StepStatus.failed
      → Runs key 1 (execute d key o fn t) t
  unfolding clone_step reset_record patch_record patch_instance
  retry_run-Runs run now w r d key o fn t st e failed keyed m owner after found bad =
      execute_fresh d key o fn t
        (reset_record failed_any failed_error_fields InstanceStatus.running now r
          (sort_steps (map (λ x. clone_step x.1) r.steps)))
        m
        (rw (owner, after, store-retry_run run now w r e failed)
          (lookup-reset_run failed_any _ failed_error_fields _ now w.store r e))
        refl
        (lookup-reset failed_any (λ x. refl) (storage_key key t) r.steps keyed
          ∙ (ap (kept failed_any) found ∙ ap (λ x. if is_failed_step x then none else some st) bad))
