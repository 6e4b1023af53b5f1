-- ===== src/Actions/Queue.antt =====
-- `DurableQueue` (queue.ts): the collection of a queue's runs. The ids whose instance is gone are
-- removed from the index, which the source does not wait for. A pass of the reaper reads the job
-- keys of the BullMQ queue; its throttle is left out.
use bullmq_durable.Base.{
  ℕ, ◌+◌, String, Bool, true, false, ◌||◌, Option, none, some, List, [], ◌∷◌, map, ltb, length,
  if◌then◌else◌,
}
use bullmq_durable.Phase.{create_instance_id}
use bullmq_durable.Value.{Value}
use bullmq_durable.Errors.{Thrown}
use bullmq_durable.Types.{InstanceState, InstanceStatus}
use bullmq_durable.Store.{Store}
use bullmq_durable.Store.Instances.{get_instance, get_instances, cancel_instance}
use bullmq_durable.Store.Admin.{
  list_active, list_newest_terminal, list_terminal_page, count_terminal, remove_instances,
  wipe_queue, add_to_set,
}
use bullmq_durable.Reaper.{Reaper, pass, terminal_statuses}
use bullmq_durable.Actions.{BullQueue, World}
use bullmq_durable.Actions.Run.{legacy_job_id, remove_carrier_jobs}

-- `DurableRunListQuery.kind`.
pub data RunKind : Type 0 where
  active_runs all_runs : RunKind
  ended_runs : InstanceStatus → RunKind

pub record RunPage : Type 0 where
  pub runs : List InstanceState
  pub index_total : ℕ
  pub truncated : Bool
  pub windowed : Bool

abbrev pub wants_active : RunKind → Bool
wants_active active_runs = true
wants_active all_runs = true
wants_active (ended_runs st) = false

abbrev pub buckets_of : RunKind → List InstanceStatus
buckets_of active_runs = []
buckets_of all_runs = terminal_statuses
buckets_of (ended_runs st) = st ∷ []

-- `for (const id of members) ids.add(id)`.
unfoldable pub add_all : List String → List String → List String
add_all [] ids = ids
add_all (id ∷ more) ids = add_all more (add_to_set id ids)

-- What the loop over the buckets has gathered: the ids, the total and whether a window cut it.
pub record Gathered : Type 0 where
  pub ids : List String
  pub total : ℕ
  pub cut : Bool

unfoldable pub gather : String → ℕ → List InstanceStatus → Store → Gathered → Gathered
gather name window [] s g = g
gather name window (st ∷ sts) s g =
    let members = list_newest_terminal name st window s in
    let total = count_terminal name st s in
    gather name window sts s (record {
      ids = add_all members g.ids;
      total = g.total + total;
      cut = g.cut || ltb (length members) total;
    })

-- The runs that are loaded, and the ids that have no instance.
unfoldable pub split_loaded :
    List String → List (Option InstanceState) → List InstanceState × List String
split_loaded [] loaded = ([], [])
split_loaded (id ∷ ids) [] = ([], [])
split_loaded (id ∷ ids) (some i ∷ loaded) =
    let (runs, gone) = split_loaded ids loaded in (i ∷ runs, gone)
split_loaded (id ∷ ids) (none ∷ loaded) =
    let (runs, gone) = split_loaded ids loaded in (runs, id ∷ gone)

unfoldable pub gathered : String → ℕ → RunKind → Store → Gathered
gathered name window kind s =
    let active = list_active name s in
    gather name window (buckets_of kind) s (
      if wants_active kind
      then record { ids = add_all active []; total = length active; cut = false }
      else record { ids = []; total = 0; cut = false })

abbrev some_bucket : List InstanceStatus → Bool
some_bucket [] = false
some_bucket (_ ∷ _) = true

-- `listRuns`: the page, and the store after the phantom ids are removed.
unfoldable pub list_runs : String → ℕ → RunKind → Store → RunPage × Store
list_runs name window kind s =
    let g = gathered name window kind s in
    let (runs, gone) = split_loaded g.ids (get_instances g.ids s) in
    (
      record {
        runs = runs;
        index_total = g.total;
        truncated = g.cut;
        windowed = some_bucket (buckets_of kind);
      },
      remove_instances gone s,
    )

-- `listRunsPage`: the runs, the total, and the store after.
unfoldable pub list_runs_page :
    String → InstanceStatus → ℕ → ℕ → Bool → Store → List InstanceState × (ℕ × Store)
list_runs_page name status offset limit desc s =
    let ids = list_terminal_page name status offset limit desc s in
    let (runs, gone) = split_loaded ids (get_instances ids s) in
    (runs, (count_terminal name status s, remove_instances gone s))

-- `DurableRunCounts`.
pub record RunCounts : Type 0 where
  pub active : ℕ
  pub completed : ℕ
  pub failed : ℕ
  pub compensation_failed : ℕ
  pub cancelled : ℕ

-- `countRuns`.
unfoldable pub count_runs : String → Store → RunCounts
count_runs name s = record {
  active = length (list_active name s);
  completed = count_terminal name InstanceStatus.completed s;
  failed = count_terminal name InstanceStatus.failed s;
  compensation_failed = count_terminal name InstanceStatus.compensation_failed s;
  cancelled = count_terminal name InstanceStatus.cancelled s;
}

module _ {Q : Type 0} (bull : BullQueue Q) where
  -- `add`: the job, and the instance id that it is annotated with.
  unfoldable pub add_job : String → String → Value → String → Q → Option Thrown × (String × Q)
  add_job queue_name name data_of job_id q =
      let (e, q') = bull.add name data_of job_id q in
      (e, (create_instance_id queue_name job_id, q'))

  cancel_found : String → ℕ → Option InstanceState → Store → Store
  cancel_found job_id now none s = s
  cancel_found job_id now (some i) s = (cancel_instance i.id none now s).1

  remove_found : String → Option InstanceState → Q → Q
  remove_found job_id none q = remove_carrier_jobs bull job_id none q
  remove_found job_id (some i) q = remove_carrier_jobs bull i.original_job_id (legacy_job_id i) q

  -- `cancel`.
  unfoldable pub queue_cancel : String → String → ℕ → World Q → World Q
  unfolding cancel_found remove_found
  queue_cancel name job_id now w =
      let found = get_instance (create_instance_id name job_id) w.store in
      record {
        store = cancel_found job_id now found w.store;
        bull = remove_found job_id found w.bull;
      }

  unfoldable pub reap_now : Reaper → ℕ → World Q → World Q
  reap_now r now w = record w {
    store =
        pass r
          (record {
            terminal = λ status left id. bull.has_job id w.bull;
            active = λ id. bull.has_job id w.bull;
            legacy = λ id. bull.has_job id w.bull;
          })
          true now w.store;
  }

  unfoldable pub after_clean : Reaper → String → ℕ → List String → World Q → World Q
  after_clean r name now [] w = w
  after_clean r name now (id ∷ ids) w =
      reap_now r now
        (record w { store = remove_instances (map (create_instance_id name) (id ∷ ids)) w.store })

  -- `clean`.
  unfoldable pub clean_queue : Reaper → String → ℕ → ℕ → ℕ → World Q → List String × World Q
  clean_queue r name grace_ms limit now w =
      let (removed, q) = bull.clean grace_ms limit w.bull in
      (removed, after_clean r name now removed (record w { bull = q }))

  -- `drain`.
  unfoldable pub drain_queue : Reaper → ℕ → World Q → World Q
  drain_queue r now w = reap_now r now (record w { bull = bull.drain w.bull })

  -- `obliterate`.
  unfoldable pub obliterate_queue : String → World Q → World Q
  obliterate_queue name w = record {
    store = wipe_queue name w.store;
    bull = bull.obliterate w.bull;
  }
