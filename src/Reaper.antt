-- ===== src/Reaper.antt =====
-- reaper.ts: `DurableReaper`, less the throttle of `kick`. The answers of Redis about the job keys
-- are a parameter; they may change from call to call, so each round of each bucket takes its own.
-- Times are natural numbers: a difference of times that is negative stops at 0, which falls below a
-- grace period that is positive, as the source's does.
pub mod Alive
use bullmq_durable.Base.{
  ℕ, zero, suc, ◌+◌, ◌-◌, String, ◌+++◌, starts_with, Bool, true, false, not, ◌||◌, Option, none,
  some, List, [], ◌∷◌, ltb, if◌then◌else◌, length, or_else, map,
}
use Prim.Native.String.{slice, len}
use bullmq_durable.Types.{InstanceState, InstanceStatus}
use bullmq_durable.Phase.{resume_job_id}
use bullmq_durable.Store.{Store}
use bullmq_durable.Store.Instances.{get_instance, cancel_instance}
use bullmq_durable.Store.Admin.{list_oldest_terminal, list_active, remove_instances}

-- `JobsExist`, job by job.
abbrev pub JobsExist : Type 0
JobsExist = String → Bool

-- The answers of a pass: of each bucket in each round, by the rounds that are left, of the active
-- set, and of the jobs of an old version.
pub record Answers : Type 0 where
  pub terminal : InstanceStatus → ℕ → JobsExist
  pub active : JobsExist
  pub legacy : JobsExist

-- `DurableReaperOptions`.
pub record Reaper : Type 0 where
  pub queue_name : String
  pub batch : ℕ
  pub grace_ms : ℕ

-- `jobIdOf`.
unfoldable pub job_id_of : Reaper → String → String
job_id_of r instance_id =
    let prefix : String = r.queue_name +++ ":" in
    if starts_with instance_id prefix
    then slice instance_id (len prefix) (len instance_id)
    else instance_id

-- `TERMINAL_STATUSES`.
abbrev pub terminal_statuses : List InstanceStatus
terminal_statuses =
    InstanceStatus.completed ∷ InstanceStatus.failed ∷ InstanceStatus.cancelled
    ∷ InstanceStatus.compensation_failed ∷ []

-- `ids.filter((_, i) => !exists[i])`.
unfoldable pub dead_ids : Reaper → JobsExist → List String → List String
dead_ids r exists [] = []
dead_ids r exists (id ∷ ids) =
    let rest = dead_ids r exists ids in if exists (job_id_of r id) then rest else id ∷ rest

abbrev no_ids : List String → Bool
no_ids [] = true
no_ids (_ ∷ _) = false

-- The rounds of one bucket: `fuel` of them at most.
unfoldable pub reap_bucket : Reaper → (ℕ → JobsExist) → InstanceStatus → ℕ → Store → ℕ × Store
reap_bucket r exists status zero s = (0, s)
reap_bucket r exists status (suc fuel) s =
    let ids = list_oldest_terminal r.queue_name status r.batch s in
    let dead = dead_ids r (exists fuel) ids in
    let s' = remove_instances dead s in
    let (more, end) = reap_bucket r exists status fuel s' in
    if ltb (length dead) (length ids) || ltb (length ids) r.batch
    then (length dead, s')
    else (length dead + more, end)

unfoldable pub reap_buckets : Reaper → Answers → List InstanceStatus → Store → ℕ × Store
reap_buckets r answers [] s = (0, s)
reap_buckets r answers (status ∷ rest) s =
    let (n, s') = reap_bucket r (answers.terminal status) status 4 s in
    let (m, end) = reap_buckets r answers rest s' in (n + m, end)

-- `reapTerminal`.
unfoldable pub reap_terminal : Reaper → Answers → Store → ℕ × Store
reap_terminal r answers s = reap_buckets r answers terminal_statuses s

abbrev carrier_of : JobsExist → String → Option ℕ → Bool
carrier_of exists job_id none = false
carrier_of exists job_id (some zero) = false
carrier_of exists job_id (some (suc n)) = exists (resume_job_id job_id (suc n))

-- `legacyCarrierAlive`.
unfoldable pub legacy_carrier_alive : JobsExist → InstanceState → Bool
legacy_carrier_alive exists i = carrier_of exists i.original_job_id i.resume_seq

-- Whether an instance whose job is gone is left alone.
unfoldable pub spared : Reaper → Answers → ℕ → Option InstanceState → Bool
spared r answers now none = true
spared r answers now (some i) =
    ltb (now - i.updated_at) r.grace_ms || legacy_carrier_alive answers.legacy i

unfoldable pub reconcile_ids : Reaper → Answers → ℕ → List String → Store → ℕ × Store
reconcile_ids r answers now [] s = (0, s)
reconcile_ids r answers now (id ∷ ids) s =
    let kept = answers.active (job_id_of r id) || spared r answers now (get_instance id s) in
    let s' = if kept then s else (cancel_instance id none now s).1 in
    let (n, end) = reconcile_ids r answers now ids s' in (if kept then n else suc n, end)

-- `reconcileActive`.
unfoldable pub reconcile_active : Reaper → Answers → ℕ → Store → ℕ × Store
reconcile_active r answers now s = reconcile_ids r answers now (list_active r.queue_name s) s

-- `pass`.
unfoldable pub pass : Reaper → Answers → Bool → ℕ → Store → Store
pass r answers reconcile now s =
    (reap_terminal r answers (if reconcile then (reconcile_active r answers now s).1 else s)).1
