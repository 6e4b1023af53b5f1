-- ===== src/Executor.antt =====
-- execution/step-executor.ts and execution/suspension.ts: the state of one tick, and the calls
-- that read and change it. `Attempt`, `Step` and `Sleep` hold the step machine, the other
-- children its theorems.
--
-- Everything that a tick owns is one record, `Tick`: the store, the clock, the executor's private
-- fields, the suspension's pending resume, the log events. A body of user code is a function of the
-- attempt; it says what it returns or throws, how long it takes, and what other actors do to the
-- store meanwhile. Steps run one at a time: siblings under `Promise.all` are not modelled.
pub mod Attempt
pub mod Step
pub mod Sleep
pub mod Fuel
pub mod Checkpoint
pub mod Keeps
pub mod Replay
pub mod Early
pub mod Due
pub mod Invoked
pub mod Failed
use bullmq_durable.Base.{
  ℕ, suc, ◌+◌, String, ◌+++◌, Bool, true, false, Option, none, some, List, [], ◌∷◌, ◌++◌, ltb,
  if◌then◌else◌,
}
use bullmq_durable.Value.{Value}
use bullmq_durable.Errors.{Thrown, SerializedError, plain_error, yield_error}
use bullmq_durable.Types.{StepPhase, main}
use bullmq_durable.Result.{Result, ok, throws, out_of_fuel}
use bullmq_durable.Duration.{Fraction}
use bullmq_durable.Retry.{RetryOptions}
use bullmq_durable.Store.{Store}

-- What user code ends in.
pub data Outcome : Type 0 where
  returned : Value → Outcome
  raised : Thrown → Outcome

pub record Run : Type 0 where
  pub took : ℕ
  pub meanwhile : Store → Store
  pub outcome : Outcome

-- `StepFn`: what the body does at each attempt.
abbrev pub Body : Type 0
Body = ℕ → Run

-- `RollbackFn`: a body that is handed the output and the error.
abbrev pub RollbackFn : Type 0
RollbackFn = Value → Thrown → Body

pub record OnRollback : Type 0 where
  pub handler : RollbackFn
  pub retry : Option RetryOptions

pub record StepOptions : Type 0 where
  pub retry : Option RetryOptions
  pub on_rollback : Option OnRollback

-- `RegisteredRollback`.
pub record RegisteredRollback : Type 0 where
  pub key : String
  pub seq : ℕ
  pub output : Value
  pub handler : RollbackFn
  pub retry : Option RetryOptions

-- `RunMode`.
pub data RunMode : Type 0 where
  normal settle : RunMode

-- `PendingResume`.
pub record PendingResume : Type 0 where
  pub delay_ms : ℕ
  pub reason : String

-- `DurableLogEvent`, with the fields that its entry carries. The text of an entry is left out.
pub data LogEvent : Type 0 where
  step_retry : String → ℕ → SerializedError → ℕ → LogEvent
  step_failed : String → ℕ → SerializedError → LogEvent
  comp_start : ℕ → LogEvent
  comp_step : String → Option SerializedError → LogEvent
  settled : Bool → SerializedError → LogEvent

-- `StepExecutorDeps`, less what `Tick` holds. `random` gives the draws of `Math.random`.
pub record Deps : Type 0 where
  pub instance_id : String
  pub mode : RunMode
  pub default_retry : Option RetryOptions
  pub random : ℕ → Fraction

pub record Tick : Type 0 where
  pub store : Store
  pub now : ℕ
  pub active_phase : StepPhase
  pub rollbacks : List RegisteredRollback
  pub failed_step_key : Option String
  pub pending_resume : Option PendingResume
  pub events : List LogEvent
  pub draws : ℕ
  -- The step and attempt of each body that was run, newest first (`currentStep.run`).
  pub invoked : List (String × ℕ)

abbrev pub is_settle : RunMode → Bool
is_settle normal = false
is_settle settle = true

-- An action of a tick: it may throw, and what it changed before stays changed.
abbrev pub Action {ℓ} : Type ℓ → Type ℓ
Action A = Tick → Result A × Tick

-- What follows a part of a chain that ended in `r`.
unfoldable pub resume {ℓ κ} : {A : Type ℓ} {B : Type κ} → Result A → (A → Action B) → Action B
resume (ok a) f t = f a t
resume (throws e) f t = (throws e, t)
resume out_of_fuel f t = (out_of_fuel, t)

infixl 5 ◌>>=◌
abbrev pub ◌>>=◌ {ℓ κ} : {A : Type ℓ} {B : Type κ} → Action A → (A → Action B) → Action B
◌>>=◌ m f t = resume (m t).0 f (m t).1

abbrev pub pure {ℓ} : {A : Type ℓ} → A → Action A
pure a t = (ok a, t)

abbrev pub throw {ℓ} : {A : Type ℓ} → Thrown → Action A
throw e t = (throws e, t)

-- A call of the store.
abbrev pub store_does : (Store → Store) → Tick → Tick
store_does f t = record t { store = f t.store }

abbrev pub log : LogEvent → Tick → Tick
log e t = record t { events = t.events ++ e ∷ [] }

-- A new due time replaces the recorded one if it is earlier.
unfoldable pub earlier : ℕ → String → Option PendingResume → PendingResume
earlier delay_ms reason none = record { delay_ms = delay_ms; reason = reason }
earlier delay_ms reason (some p) =
    if ltb delay_ms p.delay_ms then record { delay_ms = delay_ms; reason = reason } else p

-- `yieldToBullMQ`.
unfoldable pub yield_to_bullmq {ℓ} : {A : Type ℓ} → RunMode → ℕ → String → Action A
yield_to_bullmq settle delay_ms reason t = (
  throws (plain_error "bullmq-durable: cannot suspend during stall settlement (no job to delay)"),
  t,
)
yield_to_bullmq normal delay_ms reason t = (
  throws (yield_error reason),
  record t { pending_resume = some (earlier delay_ms reason t.pending_resume) },
)

pub data WaitKind : Type 0 where
  sleep backoff : WaitKind

-- `waitOrYield`. `sleepInProcess` lets the clock run.
unfoldable pub wait_or_yield : RunMode → WaitKind → ℕ → String → Action (Unit {0})
wait_or_yield settle sleep delay_ms reason t = (
  throws (
      plain_error (
        "bullmq-durable: ctx.sleep is not supported during stall settlement — "
        +++ "settlement compensations must not sleep")),
  t,
)
wait_or_yield settle backoff delay_ms reason t = (ok tt, record t { now = t.now + delay_ms })
wait_or_yield normal kind delay_ms reason t = yield_to_bullmq normal delay_ms reason t

-- `takePendingResume`.
unfoldable pub take_pending_resume : Tick → Option PendingResume × Tick
take_pending_resume t = (t.pending_resume, record t { pending_resume = none })

abbrev end_of : Outcome → Result Value
end_of (returned v) = ok v
end_of (raised e) = throws e

-- A body runs: time passes, others act on the store, and it ends.
unfoldable pub run_body : String → ℕ → Body → Action Value
run_body key attempt fn t =
    let r = fn attempt in
    (
      end_of r.outcome,
      record t {
        store = r.meanwhile t.store;
        now = t.now + r.took;
        invoked = (key, attempt) ∷ t.invoked;
      },
    )
