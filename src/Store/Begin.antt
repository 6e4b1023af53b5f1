-- ===== src/Store/Begin.antt =====
-- `beginStep` by what the store holds of the step.
use bullmq_durable.Base.{String, some, ◌≡◌, refl, false}
use bullmq_durable.Base.Dict.{lookup}
use bullmq_durable.Types.{StepState, is_cancelled_status}
use bullmq_durable.Store.{Store, InstanceRecord, clone_step}
use bullmq_durable.Store.Steps.{BeginStepInit, existing, begin_step, begin_record, begin_absent}

-- The instance is known, not cancelled, and has the step.
pub record Has (id step_key : String) (s : Store) (st : StepState) : Type 0 where
  pub owner : InstanceRecord
  pub known : lookup id s.records ≡ some owner
  pub live : is_cancelled_status owner.instance.status ≡ false
  pub held : lookup step_key owner.steps ≡ some st

-- The step's record comes back as a clone, and nothing is written.
pub begin_step-Has :
    (id step_key : String) (init : BeginStepInit) (s : Store) (st : StepState)
    → Has id step_key s st
    → begin_step id step_key init s ≡ (existing (clone_step st), s)
unfolding begin_step begin_record begin_absent
begin_step-Has id step_key init s st h =
    rw (h.known, begin_record, h.live, h.held, begin_absent) refl
