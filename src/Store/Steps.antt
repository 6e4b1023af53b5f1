-- ===== src/Store/Steps.antt =====
-- The steps of an instance in `MemoryStateStore` (store/memory-store.ts).
use bullmq_durable.Base.{
  ℕ, ◌+◌, String, Option, none, some, Bool, ◌||◌, ◌&&◌, List, [], ◌∷◌, map, ltb, leb, ◌==◌,
  if◌then◌else◌, or_else,
}
use bullmq_durable.Base.Dict.{Dict, lookup, insert, remove}
use bullmq_durable.Value.{undefined}
use bullmq_durable.Types.{
  InstanceState, StepState, StepType, StepPhase, StepStatus, running, is_cancelled_status,
}
use bullmq_durable.Store.{Store, InstanceRecord, clone_step, update_record}

-- `BeginStepInit` of store/state-store.ts.
pub record BeginStepInit : Type 0 where
  pub key : String
  pub type : StepType
  pub phase : StepPhase
  pub now : ℕ
  pub next_run_at : Option ℕ

-- `BeginStepResult` of store/state-store.ts.
pub data BeginStepResult : Type 0 where
  missing cancelled : BeginStepResult
  existing : StepState → BeginStepResult
  created : ℕ → BeginStepResult

unfoldable pub fresh_step : BeginStepInit → ℕ → StepState
fresh_step init seq = record {
  key = init.key;
  type = init.type;
  phase = some init.phase;
  seq = some seq;
  status = running;
  result = undefined;
  error = none;
  attempts = 1;
  started_at = some init.now;
  completed_at = none;
  failed_at = none;
  next_run_at = init.next_run_at;
}

-- `(record.instance.stepSeq ?? 0) + 1`.
unfoldable pub next_seq : InstanceState → ℕ
next_seq i = or_else i.step_seq 0 + 1

unfoldable pub add_step : String → BeginStepInit → InstanceRecord → InstanceRecord
unfolding next_seq fresh_step
add_step step_key init r = record r {
  instance = record instance { step_seq = some (next_seq instance); updated_at = init.now };
  steps = insert step_key (fresh_step init (next_seq instance)) steps;
}
  where
    open r use {instance, steps}

unfoldable pub begin_absent :
    String
    → String
    → BeginStepInit
    → InstanceRecord
    → Option StepState
    → Store
    → BeginStepResult × Store
begin_absent id step_key init r (some st) s = (existing (clone_step st), s)
begin_absent id step_key init r none s = (
  created (next_seq r.instance),
  record s { records = insert id (add_step step_key init r) s.records },
)

unfoldable pub begin_record :
    String → String → BeginStepInit → Option InstanceRecord → Store → BeginStepResult × Store
begin_record id step_key init none s = (missing, s)
begin_record id step_key init (some r) s =
    if is_cancelled_status r.instance.status
    then (cancelled, s)
    else begin_absent id step_key init r (lookup step_key r.steps) s

-- `beginStep`.
unfoldable pub begin_step : String → String → BeginStepInit → Store → BeginStepResult × Store
begin_step id step_key init s = begin_record id step_key init (lookup id s.records) s

-- `this.records.get(id)?.steps.get(key)`, before it is cloned.
unfoldable pub find_step : String → String → Store → Option StepState
find_step id step_key s = elim (lookup id s.records) [
  | none ↦ none
  | some r ↦ lookup step_key r.steps
]

unfoldable pub clone_found : Option StepState → Option StepState
clone_found none = none
clone_found (some st) = some (clone_step st)

-- `getStep`.
unfoldable pub get_step : String → String → Store → Option StepState
get_step id step_key s = clone_found (find_step id step_key s)

-- The comparison `(a.seq ?? 0) - (b.seq ?? 0) || (a.startedAt ?? 0) - (b.startedAt ?? 0)`, as the
-- test that `a` may stand before `b`.
unfoldable pub step_before : StepState → StepState → Bool
step_before a b =
    ltb (or_else a.seq 0) (or_else b.seq 0)
    || ((or_else a.seq 0 == or_else b.seq 0)
        && leb (or_else a.started_at 0) (or_else b.started_at 0))

-- `Array.prototype.sort` is stable: an element goes behind those that it does not precede.
unfoldable pub insert_step : StepState → List StepState → List StepState
insert_step x [] = x ∷ []
insert_step x (y ∷ ys) = if step_before x y then x ∷ y ∷ ys else y ∷ insert_step x ys

unfoldable pub sort_steps : List StepState → List StepState
unfolding insert_step
sort_steps [] = []
sort_steps (x ∷ xs) = insert_step x (sort_steps xs)

-- `getSteps`.
unfoldable pub get_steps : String → Store → List StepState
unfolding sort_steps
get_steps id s = elim (lookup id s.records) [
  | none ↦ []
  | some r ↦ sort_steps (map (λ e. clone_step e.1) r.steps)
]

-- `saveStep`.
unfoldable pub save_step : String → String → StepState → Store → Store
save_step id step_key st =
    update_record (λ r. record r { steps = insert step_key (clone_step st) r.steps }) id

-- `Partial<StepState>`, with the fields that the callers of `updateStep` pass.
pub record StepPatch : Type 0 where
  pub status : StepStatus
  pub completed_at : ℕ

unfoldable pub patch_step : StepPatch → StepState → StepState
patch_step p st = record st { status = p.status; completed_at = some p.completed_at }

unfoldable pub patch_steps : String → StepPatch → Dict StepState → Dict StepState
patch_steps step_key p steps = elim (lookup step_key steps) [
  | none ↦ steps
  | some st ↦ insert step_key (patch_step p st) steps
]

-- `updateStep`.
unfoldable pub update_step : String → String → StepPatch → Store → Store
unfolding patch_steps
update_step id step_key p =
    update_record (λ r. record r { steps = patch_steps step_key p r.steps }) id

unfoldable pub remove_keys : List String → Dict StepState → Dict StepState
remove_keys [] steps = steps
remove_keys (k ∷ ks) steps = remove_keys ks (remove k steps)

-- `removeSteps`.
unfoldable pub remove_steps : String → List String → Store → Store
unfolding remove_keys
remove_steps id step_keys =
    update_record (λ r. record r { steps = remove_keys step_keys r.steps }) id
