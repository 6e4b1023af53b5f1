-- ===== src/Actions/Guards.antt =====
-- When the actions of `DurableRun` are refused, and that a refusal changes nothing.
use bullmq_durable.Base.{ℕ, String, Bool, true, false, Option, none, some, ◌≡◌, refl}
use bullmq_durable.Types.{InstanceState, InstanceStatus}
use bullmq_durable.Store.{Store}
use bullmq_durable.Store.Instances.{get_instance}
use bullmq_durable.Store.Fence.{get_status, status_of}
use bullmq_durable.Errors.{Thrown}
use bullmq_durable.Actions.{BullQueue, World, Acted, RunHandle, acted, refused, thrown}
use bullmq_durable.Actions.Run.{
  instance_id_of, with_instance, resume_with, retry_with, retry_compensation_with, cancel_with,
  cancel_now, revive, after_revive, resume_run, retry_run, retry_compensation, cancel_run,
  delete_run, revive_job,
}

pub data RunAction : Type 0 where
  resumes retries retries_compensation cancels deletes : RunAction

-- The statuses that an action accepts.
abbrev pub accepts : RunAction → InstanceStatus → Bool
accepts resumes InstanceStatus.running = true
accepts resumes InstanceStatus.yielded = true
accepts resumes InstanceStatus.compensating = true
accepts resumes _ = false
accepts retries InstanceStatus.failed = true
accepts retries _ = false
accepts retries_compensation InstanceStatus.compensation_failed = true
accepts retries_compensation _ = false
accepts cancels InstanceStatus.completed = false
accepts cancels InstanceStatus.cancelled = false
accepts cancels _ = true
accepts deletes _ = true

abbrev pub accepts_found : RunAction → Option InstanceStatus → Bool
accepts_found a none = false
accepts_found a (some st) = accepts a st

abbrev pub is_refused : Acted → Bool
is_refused acted = false
is_refused (refused e) = true
is_refused (thrown e) = false

-- The result of an action that is accepted is no refusal, and one that is not accepted changes
-- nothing.
abbrev pub Guarded : {Q : Type 0} → Bool → World Q → Acted × World Q → Type 0
Guarded true w r = is_refused r.0 ≡ false
Guarded false w r = (is_refused r.0 ≡ true) × (r.1 ≡ w)

module _ {Q : Type 0} (bull : BullQueue Q) where
  unfoldable pub run_action : RunAction → RunHandle → ℕ → World Q → Acted × World Q
  run_action resumes run now = resume_run bull run
  run_action retries run now = retry_run bull run now
  run_action retries_compensation run now = retry_compensation bull run now
  run_action cancels run now = cancel_run bull run now
  run_action deletes run now = delete_run bull run

  after_revive-accepted :
      (run : RunHandle) (i : InstanceState) (message : String) (s : Store) (x : Option Thrown × Q)
      → is_refused (after_revive bull run i message s x).0 ≡ false
  unfolding after_revive
  after_revive-accepted run i message s (some e, q) = refl
  after_revive-accepted run i message s (none, q) = refl

  revive-accepted :
      (run : RunHandle) (i : InstanceState) (message : String) (s : Store) (q : Q)
      → is_refused (revive bull run i message s q).0 ≡ false
  unfolding revive
  revive-accepted run i message s q =
      after_revive-accepted run i message s (revive_job bull run i q)

  resume_with-Guarded :
      (run : RunHandle) (st : InstanceStatus) (i : InstanceState) (w : World Q)
      → Guarded (accepts resumes st) w (resume_with bull run st i w)
  unfolding resume_with
  resume_with-Guarded run InstanceStatus.running i w = revive-accepted run i _ _ _
  resume_with-Guarded run InstanceStatus.yielded i w = revive-accepted run i _ _ _
  resume_with-Guarded run InstanceStatus.compensating i w = revive-accepted run i _ _ _
  resume_with-Guarded run InstanceStatus.completed i w = (refl, refl)
  resume_with-Guarded run InstanceStatus.failed i w = (refl, refl)
  resume_with-Guarded run InstanceStatus.compensation_failed i w = (refl, refl)
  resume_with-Guarded run InstanceStatus.cancelled i w = (refl, refl)

  retry_with-Guarded :
      (run : RunHandle) (now : ℕ) (st : InstanceStatus) (i : InstanceState) (w : World Q)
      → Guarded (accepts retries st) w (retry_with bull run now st i w)
  unfolding retry_with
  retry_with-Guarded run now InstanceStatus.failed i w = revive-accepted run i _ _ _
  retry_with-Guarded run now InstanceStatus.running i w = (refl, refl)
  retry_with-Guarded run now InstanceStatus.yielded i w = (refl, refl)
  retry_with-Guarded run now InstanceStatus.compensating i w = (refl, refl)
  retry_with-Guarded run now InstanceStatus.completed i w = (refl, refl)
  retry_with-Guarded run now InstanceStatus.compensation_failed i w = (refl, refl)
  retry_with-Guarded run now InstanceStatus.cancelled i w = (refl, refl)

  retry_compensation_with-Guarded :
      (run : RunHandle) (now : ℕ) (st : InstanceStatus) (i : InstanceState) (w : World Q)
      → Guarded (accepts retries_compensation st) w (retry_compensation_with bull run now st i w)
  unfolding retry_compensation_with
  retry_compensation_with-Guarded run now InstanceStatus.compensation_failed i w =
      revive-accepted run i _ _ _
  retry_compensation_with-Guarded run now InstanceStatus.running i w = (refl, refl)
  retry_compensation_with-Guarded run now InstanceStatus.yielded i w = (refl, refl)
  retry_compensation_with-Guarded run now InstanceStatus.compensating i w = (refl, refl)
  retry_compensation_with-Guarded run now InstanceStatus.completed i w = (refl, refl)
  retry_compensation_with-Guarded run now InstanceStatus.failed i w = (refl, refl)
  retry_compensation_with-Guarded run now InstanceStatus.cancelled i w = (refl, refl)

  cancel_with-Guarded :
      (run : RunHandle) (now : ℕ) (st : InstanceStatus) (i : InstanceState) (w : World Q)
      → Guarded (accepts cancels st) w (cancel_with bull run now st i w)
  unfolding cancel_with cancel_now
  cancel_with-Guarded run now InstanceStatus.completed i w = (refl, refl)
  cancel_with-Guarded run now InstanceStatus.cancelled i w = (refl, refl)
  cancel_with-Guarded run now InstanceStatus.running i w = refl
  cancel_with-Guarded run now InstanceStatus.yielded i w = refl
  cancel_with-Guarded run now InstanceStatus.compensating i w = refl
  cancel_with-Guarded run now InstanceStatus.failed i w = refl
  cancel_with-Guarded run now InstanceStatus.compensation_failed i w = refl

  action_with-Guarded :
      (a : RunAction) (run : RunHandle) (now : ℕ) (w : World Q) (found : Option InstanceState)
      → get_instance (instance_id_of run) w.store ≡ found
      → Guarded (accepts_found a (status_of found)) w (run_action a run now w)
  unfolding run_action resume_run retry_run retry_compensation cancel_run delete_run with_instance
  action_with-Guarded resumes run now w none e = rw (e, with_instance) (refl, refl)
  action_with-Guarded retries run now w none e = rw (e, with_instance) (refl, refl)
  action_with-Guarded retries_compensation run now w none e = rw (e, with_instance) (refl, refl)
  action_with-Guarded cancels run now w none e = rw (e, with_instance) (refl, refl)
  action_with-Guarded deletes run now w none e = rw (e, with_instance) (refl, refl)
  action_with-Guarded resumes run now w (some i) e =
      rw (e, with_instance) (resume_with-Guarded run i.status i w)
  action_with-Guarded retries run now w (some i) e =
      rw (e, with_instance) (retry_with-Guarded run now i.status i w)
  action_with-Guarded retries_compensation run now w (some i) e =
      rw (e, with_instance) (retry_compensation_with-Guarded run now i.status i w)
  action_with-Guarded cancels run now w (some i) e =
      rw (e, with_instance) (cancel_with-Guarded run now i.status i w)
  action_with-Guarded deletes run now w (some i) e = rw (e, with_instance) refl

  -- An action is refused exactly if the run has no state or is in a status that the action does not
  -- accept, and a refused action leaves the store and the queue as they were.
  pub run_action-Guarded :
      (a : RunAction) (run : RunHandle) (now : ℕ) (w : World Q)
      → Guarded
          (accepts_found a (get_status (instance_id_of run) w.store))
          w
          (run_action a run now w)
  unfolding get_status
  run_action-Guarded a run now w = action_with-Guarded a run now w _ refl
