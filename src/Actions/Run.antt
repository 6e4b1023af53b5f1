-- ===== src/Actions/Run.antt =====
-- The actions of `DurableRun` (run.ts). After `requireExistingInstance` the snapshot of the handle is
-- the instance that it returns, so the carrier is looked for by that.
use bullmq_durable.Base.{
  ℕ, zero, suc, String, ◌+++◌, Bool, true, false, ◌&&◌, Option, none, some, List, [], ◌∷◌, map,
  filter, if◌then◌else◌,
}
use bullmq_durable.Phase.{create_instance_id, resume_job_id, storage_key_of_step}
use bullmq_durable.Types.{
  InstanceState, InstanceStatus, StepState, StepPhase, is_failed_step, is_main,
}
use bullmq_durable.Store.{Store}
use bullmq_durable.Store.Instances.{
  get_instance, update_instance, clear_instance_fields, cancel_instance, no_patch, InstanceField,
  field_error, field_failed_at, field_failure_error, field_failed_step, field_compensation,
}
use bullmq_durable.Store.Steps.{get_steps, remove_steps}
use bullmq_durable.Store.Admin.{remove_instances}
use bullmq_durable.Actions.{
  Thrown, BullQueue, JobState, World, ActionError, Acted, RunHandle, acted, refused, thrown,
  not_found, invalid_state,
}

-- `this.id`.
unfoldable pub instance_id_of : RunHandle → String
instance_id_of run = create_instance_id run.queue_name run.job_id

-- The id of the 0.1.x resume job that may carry the run.
unfoldable pub legacy_job_id : InstanceState → Option String
legacy_job_id i = elim i.resume_seq [
  | none ↦ none
  | some zero ↦ none
  | some (suc n) ↦ some (resume_job_id i.original_job_id (suc n))
]

pub data CarrierState : Type 0 where
  missing : CarrierState
  in_state : JobState → CarrierState

unfoldable pub not_found_error : RunHandle → ActionError
not_found_error run = record {
  message = "Durable run \"" +++ (instance_id_of run +++ "\" not found");
  code = not_found;
}

unfoldable pub invalid : String → ActionError
invalid message = record { message = message; code = invalid_state }

abbrev pub failed_error_fields : List InstanceField
failed_error_fields =
    field_error ∷ field_failed_at ∷ field_failure_error ∷ field_failed_step ∷ field_compensation
    ∷ []

abbrev pub compensation_error_fields : List InstanceField
compensation_error_fields = field_error ∷ field_failed_at ∷ field_compensation ∷ []

-- The state of the run's failed steps is deleted, the error is cleared and the status set.
unfoldable pub reset_run :
    String → (StepState → Bool) → List InstanceField → InstanceStatus → ℕ → Store → Store
reset_run id picks fields status now s =
    let failed_keys = map storage_key_of_step (filter picks (get_steps id s)) in
    (update_instance id (record no_patch { status = some status }) now
      (clear_instance_fields id fields (remove_steps id failed_keys s))).1

abbrev pub is_internal : Option StepPhase → Bool
is_internal none = false
is_internal (some p) = if is_main p then false else true

abbrev pub failed_internal : StepState → Bool
failed_internal st = is_internal st.phase && is_failed_step st.status

abbrev pub failed_any : StepState → Bool
failed_any st = is_failed_step st.status

module _ {Q : Type 0} (bull : BullQueue Q) where
  legacy_carrier : Option String → Q → Option String
  legacy_carrier none q = none
  legacy_carrier (some id) q = if bull.has_job id q then some id else none

  -- `carrier`.
  unfoldable pub carrier : RunHandle → Option InstanceState → Q → Option String
  unfolding legacy_carrier
  carrier run none q = if bull.has_job run.job_id q then some run.job_id else none
  carrier run (some i) q =
      if bull.has_job run.job_id q then some run.job_id else legacy_carrier (legacy_job_id i) q

  -- `carrierState`.
  unfoldable pub carrier_state : RunHandle → Option InstanceState → Q → CarrierState
  carrier_state run i q = elim (carrier run i q) [
    | none ↦ missing
    | some id ↦ if bull.has_job id q then in_state (bull.job_state id q) else missing
  ]

  deliver_in : JobState → String → Q → Option Thrown × Q
  deliver_in JobState.delayed id q = bull.promote id q
  deliver_in JobState.failed id q = bull.retry id JobState.failed q
  deliver_in JobState.completed id q = bull.retry id JobState.completed q
  deliver_in _ id q = (none, q)

  -- `reviveJob`.
  unfoldable pub revive_job : RunHandle → InstanceState → Q → Option Thrown × Q
  unfolding deliver_in
  revive_job run i q = elim (carrier run (some i) q) [
    | none ↦ bull.add i.job_name i.input i.original_job_id q
    | some id ↦
        if bull.has_job id q
        then deliver_in (bull.job_state id q) id q
        else bull.add i.job_name i.input i.original_job_id q
  ]

  -- `appendActionLog`: `append_log` swallows what the source swallows.
  unfoldable pub append_action_log : RunHandle → InstanceState → String → Q → Q
  append_action_log run i message q = elim (carrier run (some i) q) [
    | none ↦ q
    | some id ↦ if bull.has_job id q then bull.append_log id message q else q
  ]

  remove_legacy : Option String → Q → Q
  remove_legacy none q = q
  remove_legacy (some id) q = if bull.has_job id q then bull.remove id q else q

  -- `removeCarrierJobs`, of the ids that the instance names.
  unfoldable pub remove_carrier_jobs : String → Option String → Q → Q
  unfolding remove_legacy
  remove_carrier_jobs job_id legacy q =
      remove_legacy legacy (if bull.has_job job_id q then bull.remove job_id q else q)

  -- `await this.reviveJob(…)`, then the log line.
  unfoldable pub after_revive :
      RunHandle → InstanceState → String → Store → Option Thrown × Q → Acted × World Q
  after_revive run i message s (some e, q) = (thrown e, record { store = s; bull = q })
  after_revive run i message s (none, q) =
      (acted, record { store = s; bull = append_action_log run i message q })

  unfoldable pub revive : RunHandle → InstanceState → String → Store → Q → Acted × World Q
  unfolding after_revive
  revive run i message s q = after_revive run i message s (revive_job run i q)

  -- `requireExistingInstance`, and the action with the instance.
  unfoldable pub with_instance :
      RunHandle → (InstanceState → World Q → Acted × World Q) → World Q → Acted × World Q
  with_instance run action w = elim (get_instance (instance_id_of run) w.store) [
    | none ↦ (refused (not_found_error run), w)
    | some i ↦ action i w
  ]

  unfoldable pub resume_with :
      RunHandle → InstanceStatus → InstanceState → World Q → Acted × World Q
  resume_with run InstanceStatus.completed i w =
      (refused (invalid "Cannot resume a completed run"), w)
  resume_with run InstanceStatus.cancelled i w =
      (refused (invalid "Cannot resume a cancelled run"), w)
  resume_with run InstanceStatus.failed i w =
      (refused (invalid "Use retry to re-run a failed run"), w)
  resume_with run InstanceStatus.compensation_failed i w =
      (refused (invalid "Use retryCompensation to re-drive a compensation_failed run"), w)
  resume_with run _ i w = revive run i "Resume requested" w.store w.bull

  -- `resume`.
  unfoldable pub resume_run : RunHandle → World Q → Acted × World Q
  resume_run run = with_instance run (λ i. resume_with run i.status i)

  unfoldable pub retry_with :
      RunHandle → ℕ → InstanceStatus → InstanceState → World Q → Acted × World Q
  retry_with run now InstanceStatus.failed i w =
      revive run i "Retry requested"
        (reset_run (instance_id_of run) failed_any failed_error_fields InstanceStatus.running now
          w.store)
        w.bull
  retry_with run now _ i w = (refused (invalid "Retry only applies to failed runs"), w)

  -- `retry`.
  unfoldable pub retry_run : RunHandle → ℕ → World Q → Acted × World Q
  retry_run run now = with_instance run (λ i. retry_with run now i.status i)

  unfoldable pub retry_compensation_with :
      RunHandle → ℕ → InstanceStatus → InstanceState → World Q → Acted × World Q
  retry_compensation_with run now InstanceStatus.compensation_failed i w =
      revive run i "Retry compensation requested"
        (reset_run (instance_id_of run) failed_internal compensation_error_fields
          InstanceStatus.compensating now w.store)
        w.bull
  retry_compensation_with run now _ i w =
      (refused (invalid "retryCompensation only applies to compensation_failed runs"), w)

  -- `retryCompensation`.
  unfoldable pub retry_compensation : RunHandle → ℕ → World Q → Acted × World Q
  retry_compensation run now = with_instance run (λ i. retry_compensation_with run now i.status i)

  unfoldable pub cancel_now : RunHandle → ℕ → InstanceState → World Q → Acted × World Q
  cancel_now run now i w = (
    acted,
    record {
      store = (cancel_instance (instance_id_of run) none now w.store).1;
      bull =
          remove_carrier_jobs i.original_job_id (legacy_job_id i)
            (append_action_log run i "Cancelled" w.bull);
    },
  )

  unfoldable pub cancel_with :
      RunHandle → ℕ → InstanceStatus → InstanceState → World Q → Acted × World Q
  cancel_with run now InstanceStatus.completed i w =
      (refused (invalid "Cannot cancel a completed run"), w)
  cancel_with run now InstanceStatus.cancelled i w =
      (refused (invalid "Cannot cancel a cancelled run"), w)
  cancel_with run now _ i w = cancel_now run now i w

  -- `cancel`.
  unfoldable pub cancel_run : RunHandle → ℕ → World Q → Acted × World Q
  cancel_run run now = with_instance run (λ i. cancel_with run now i.status i)

  -- `delete`.
  unfoldable pub delete_run : RunHandle → World Q → Acted × World Q
  delete_run run = with_instance run (λ i w. (
    acted,
    record {
      store = remove_instances (instance_id_of run ∷ []) w.store;
      bull = remove_carrier_jobs i.original_job_id (legacy_job_id i) w.bull;
    },
  ))
