-- ===== src/Lib.antt =====
-- A model of bullmq-durable: durable, resumable processors on top of BullMQ jobs. A processor calls
-- `ctx.step` and `ctx.sleep`; each finished step is a checkpoint in a store, and a later delivery
-- of the job replays the processor up to where it stood. All paths below are under
-- packages/bullmq-durable/src/.
--
-- How the parts work together. The worker (worker.ts) hands a delivery to the runtime
-- (execution/runtime.ts), which takes the lock of the instance in the store, begins the tick, runs
-- the processor against the step executor (execution/step-executor.ts) and writes what came of it.
-- A wait is an exception, which unwinds the processor and becomes a delay of the job
-- (execution/suspension.ts). A failure that is final runs the compensations of the completed steps
-- and the failure handler on the same executor, in other phases (execution/phase.ts). The reaper
-- (reaper.ts) deletes what belongs to no job any more.
--
-- Which file models which part:
--   Base            shared names, tests, lists, dictionaries (`Map` by insertion order)
--   Value           utils/serialize.ts: JSON values and `cloneValue`
--   Errors          errors.ts, utils/serialize.ts: thrown values, their storage, the step marker
--   Types, Phase    types.ts, execution/phase.ts, utils/keys.ts: persisted records and keys; Keys
--                   what is proved of them
--   Result          what an action ends in: a value, a thrown value, or no fuel
--   Duration, Retry utils/duration.ts, utils/retry.ts
--   Store           store/memory-store.ts: `MemoryStateStore`, an operation at a time and a store to
--                   a store. Instances, Steps, Locks and Admin hold the operations, Fence, Mutex and
--                   Begin what is proved of them
--   Redis           store/redis-store.ts: the keys of Redis and the commands on them. Fields is the
--                   encoding of an instance; Lifecycle, Checkpoints, Advisory and Indexes hold the
--                   scripts and methods; Interface is store/state-store.ts with both stores as its
--                   instances, Calls its calls as data. Matches, Represents and Refines relate
--                   Redis to the memory store, Indexed, Placed, Kept and Complete are on the index,
--                   Texts on the texts of a hash
--   Executor        execution/step-executor.ts, execution/suspension.ts: a tick is one record, an
--                   action takes a tick to a result and a tick. Attempt, Step and Sleep hold the
--                   methods; Fuel, Checkpoint, Keeps, Replay, Failed, Early, Due and Invoked what
--                   is proved of them
--   Runtime         execution/runtime.ts, execution/context.ts. Processor, Rollbacks, Failure and Run
--                   hold the methods; Order, Calls, Ends, Fails, Completed, Retriable and Locked
--                   what is proved of them
--   Reaper          reaper.ts
--   Worker          worker.ts: the handling of a job, the outcome's translation and the settlement of
--                   orphaned failures
--   Inspect         inspect/derive.ts, inspect/summarize.ts; Events is the timeline
--                   and Timeline what it shows
--   Envelope        legacy/envelope.ts
--   Logs            utils/log.ts and DurableRun.logs of run.ts; Parsed is what is proved of them
--   Actions         run.ts, queue.ts: Run and Queue hold the actions, over a BullMQ queue that is a
--                   parameter; Guards, Reset and Retried what is proved of them
--   Alerts          bullmq-cockpit's alerts-inspector.ts: Notify is the notifier, Edges what is proved
--                   of it
--   Tests           the theorems at concrete inputs
--
-- User code. A step's body is a function of the attempt, which says what it ends in, how long it
-- takes and what other actors do to the store meanwhile. A processor is a tree of calls, which goes
-- on with what each call returns or throws. Theorems hold for every body and every processor.
--
-- Bounds and fuel. The attempt loop is recursion on fuel, as many rounds as the resolved policy
-- allows attempts: a round goes on only within the policy. The reaper makes four rounds, as in the
-- source. Times are natural milliseconds, and powers and fractions are exact, where the source has
-- doubles: a delay with jitter may differ by the rounding, 1 ms at most for delays up to 2 ^ 50
-- ms, and 0 * 2 ** 1024, which is `NaN` in the source, is 0. The numbers of a policy may be
-- negative, fractional or `NaN`, not infinite. A hash of Redis holds values, which Redis/Texts
-- relates to their texts. A processor is a finite tree of calls: one that goes on forever, or
-- waits outside of a step, has no model.
--
-- What is not modelled: steps that run at once (`Promise.all`), the timer that renews the lock,
-- the message of each event that the runtime logs, the throttle of the reaper and its kicks, in
-- Redis the wiping of queues, texts that do not parse and commands that fail, the construction of
-- queues, workers and connections, the NestJS integration and the dashboard but for its alerts.
-- BullMQ, JSON text, the answers of Redis about job keys, the draws of `Math.random` and
-- `toISOString` are parameters.
pub mod Base
pub mod Value
pub mod Errors
pub mod Types
pub mod Result
pub mod Duration
pub mod Retry
pub mod Phase
pub mod Store
pub mod Redis
pub mod Executor
pub mod Runtime
pub mod Reaper
pub mod Worker
pub mod Inspect
pub mod Envelope
pub mod Logs
pub mod Alerts
pub mod Actions
pub mod Tests
