-- ===== src/Actions.antt =====
-- run.ts and queue.ts: `DurableRun` and `DurableQueue` over the memory store and a BullMQ queue.
-- The queue is a parameter: a state of any type and the calls that the source makes of it. A read
-- that fails counts as a missing job, as the source's `catch` has it. Kicks of the reaper, which
-- run later, are left out.
pub mod Run
pub mod Queue
pub mod Guards
pub mod Reset
pub mod Retried
use bullmq_durable.Base.{ℕ, String, ◌+++◌, Bool, Option, none, some, List}
use bullmq_durable.Value.{Value}
use bullmq_durable.Errors.{Thrown}
use bullmq_durable.Types.{InstanceState}
use bullmq_durable.Store.{Store}

-- `job.getState()`, with `unknown` for a read that fails.
pub data JobState : Type 0 where
  waiting active prioritized delayed completed failed unknown : JobState

-- What the source uses of a BullMQ `Queue` and its jobs. A call that may throw says what it throws.
pub record BullQueue (Q : Type 0) : Type 0 where
  pub has_job : String → Q → Bool
  pub job_state : String → Q → JobState
  pub promote : String → Q → Option Thrown × Q
  pub retry : String → JobState → Q → Option Thrown × Q
  pub add : String → Value → String → Q → Option Thrown × Q
  pub remove : String → Q → Q
  pub append_log : String → String → Q → Q
  pub clean : ℕ → ℕ → Q → List String × Q
  pub drain : Q → Q
  pub obliterate : Q → Q

-- The durable state and the queue.
pub record World (Q : Type 0) : Type 0 where
  pub store : Store
  pub bull : Q

pub data ActionCode : Type 0 where
  not_found invalid_state : ActionCode

-- `DurableActionError`.
pub record ActionError : Type 0 where
  pub message : String
  pub code : ActionCode

-- What an action ends in: it is done, it is refused, or a call of BullMQ throws.
pub data Acted : Type 0 where
  acted : Acted
  refused : ActionError → Acted
  thrown : Thrown → Acted

-- `DurableRun`, less its snapshot: the queue's name and the job's id.
pub record RunHandle : Type 0 where
  pub queue_name : String
  pub job_id : String
