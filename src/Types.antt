-- ===== src/Types.antt =====
-- types.ts: the persisted state of a step and of an instance, and utils/keys.ts: the terminal
-- statuses. An optional field is an `Option`; an absent `unknown` value is `undefined`. Times are
-- epoch milliseconds.
use bullmq_durable.Base.{ℕ, String, Bool, true, false, Option, List}
use bullmq_durable.Value.{Value}
use bullmq_durable.Errors.{SerializedError}

pub data StepStatus : Type 0 where
  running completed failed sleeping skipped : StepStatus

pub data StepType : Type 0 where
  step sleep : StepType

pub data StepPhase : Type 0 where
  main compensation failure : StepPhase

pub record StepState : Type 0 where
  pub key : String
  pub type : StepType
  pub phase : Option StepPhase
  pub seq : Option ℕ
  pub status : StepStatus
  pub result : Value
  pub error : Option SerializedError
  pub attempts : ℕ
  pub started_at : Option ℕ
  pub completed_at : Option ℕ
  pub failed_at : Option ℕ
  pub next_run_at : Option ℕ

pub data InstanceStatus : Type 0 where
  running yielded compensating completed failed compensation_failed cancelled : InstanceStatus

-- A compensation that could not be completed. The runtime writes no other outcome.
pub record CompensationOutcome : Type 0 where
  pub key : String
  pub error : SerializedError

pub record CompensationReport : Type 0 where
  pub rolled_back : List String
  pub failed : List CompensationOutcome

pub record InstanceState : Type 0 where
  pub id : String
  pub queue_name : String
  pub job_name : String
  pub original_job_id : String
  pub status : InstanceStatus
  pub input : Value
  pub output : Value
  pub error : Option SerializedError
  pub failure_error : Option SerializedError
  pub failed_step : Option String
  pub compensation : Option CompensationReport
  pub run_count : ℕ
  pub resume_seq : Option ℕ
  pub step_seq : Option ℕ
  pub created_at : ℕ
  pub updated_at : ℕ
  pub completed_at : Option ℕ
  pub failed_at : Option ℕ

-- `isTerminalStatus`.
abbrev pub is_terminal : InstanceStatus → Bool
is_terminal running = false
is_terminal yielded = false
is_terminal compensating = false
is_terminal completed = true
is_terminal failed = true
is_terminal compensation_failed = true
is_terminal cancelled = true

-- Tests of enumerations, `a === b`.
abbrev pub is_cancelled_status : InstanceStatus → Bool
is_cancelled_status cancelled = true
is_cancelled_status _ = false

abbrev pub is_compensating : InstanceStatus → Bool
is_compensating compensating = true
is_compensating _ = false

abbrev pub is_running : InstanceStatus → Bool
is_running running = true
is_running _ = false

abbrev pub is_yielded : InstanceStatus → Bool
is_yielded yielded = true
is_yielded _ = false

abbrev pub same_status : InstanceStatus → InstanceStatus → Bool
same_status running running = true
same_status yielded yielded = true
same_status compensating compensating = true
same_status completed completed = true
same_status failed failed = true
same_status compensation_failed compensation_failed = true
same_status cancelled cancelled = true
same_status _ _ = false

abbrev pub is_running_step : StepStatus → Bool
is_running_step running = true
is_running_step _ = false

abbrev pub is_completed_step : StepStatus → Bool
is_completed_step completed = true
is_completed_step _ = false

abbrev pub is_failed_step : StepStatus → Bool
is_failed_step failed = true
is_failed_step _ = false

abbrev pub is_sleep : StepType → Bool
is_sleep sleep = true
is_sleep step = false

abbrev pub is_main : StepPhase → Bool
is_main main = true
is_main _ = false
