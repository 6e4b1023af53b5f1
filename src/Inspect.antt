-- ===== src/Inspect.antt =====
-- inspect/derive.ts and inspect/summarize.ts: the view of a run that dashboards show. A difference
-- of times that is negative stops at 0, which exceeds no threshold, as the source's does.
pub mod View
pub mod Events
pub mod Timeline
use bullmq_durable.Base.{
  ℕ, ◌-◌, String, Bool, true, false, not, ◌&&◌, ◌||◌, ◌=s=◌, Option, none, some, List, [], ◌∷◌, map,
  filter, reverse, length, ltb, if◌then◌else◌, or_else, coalesce, is_some,
}
use bullmq_durable.Value.{Value, Fields}
use bullmq_durable.Types.{
  InstanceState, InstanceStatus, StepState, is_running_step, is_failed_step, is_completed_step,
  is_sleep, is_main, main, is_running, is_yielded,
}
use bullmq_durable.Store.{Store}
use bullmq_durable.Store.Steps.{get_steps}
use bullmq_durable.Store.Locks.{held_locks}
use bullmq_durable.Store.Admin.{contains}

-- `DurableDerivedStatus`.
pub data DerivedStatus : Type 0 where
  running sleeping retrying waiting compensating completed failed compensation_failed cancelled :
      DerivedStatus

-- `DurableDerivedView`.
pub record DerivedView : Type 0 where
  pub derived_status : DerivedStatus
  pub current_step : Option StepState
  pub next_run_at : Option ℕ

abbrev as_number : Value → Option ℕ
as_number (Value.num n) = some n
as_number _ = none

resume_at : Fields → Option ℕ
resume_at Fields.end = none
resume_at (Fields.field k v rest) = if k =s= "resumeAt" then as_number v else resume_at rest

abbrev legacy_wake : Value → Option ℕ
unfolding resume_at
legacy_wake (Value.obj fields) = resume_at fields
legacy_wake _ = none

-- `sleepWakeAt`.
unfoldable pub sleep_wake_at : StepState → Option ℕ
unfolding legacy_wake resume_at
sleep_wake_at st = coalesce st.next_run_at (legacy_wake st.result)

-- `isInFlightRetry`.
abbrev pub is_in_flight_retry : StepState → Bool
is_in_flight_retry st =
    not (is_sleep st.type) && (is_running_step st.status && is_some st.next_run_at)

unfoldable pub first_of : (StepState → Bool) → List StepState → Option StepState
first_of p [] = none
first_of p (x ∷ xs) = if p x then some x else first_of p xs

-- `[...steps].reverse().find(p)`.
abbrev pub last_of : (StepState → Bool) → List StepState → Option StepState
last_of p steps = first_of p (reverse steps)

-- `latestRunningStep`.
abbrev pub latest_running_step : List StepState → Option StepState
latest_running_step = last_of λ st. is_running_step st.status

-- `lastFailedMainStep`.
abbrev pub last_failed_main_step : List StepState → Option StepState
last_failed_main_step = last_of λ st. is_failed_step st.status && is_main (or_else st.phase main)

abbrev pub is_parked_sleep : StepState → Bool
is_parked_sleep st = is_sleep st.type && is_some (sleep_wake_at st)

abbrev pub view : DerivedStatus → Option StepState → Option ℕ → DerivedView
view status current next = record {
  derived_status = status;
  current_step = current;
  next_run_at = next;
}

unfoldable pub view_sleeping : List StepState → Option StepState → DerivedView
view_sleeping steps (some st) = view sleeping (some st) (sleep_wake_at st)
view_sleeping steps none = view waiting (latest_running_step steps) none

unfoldable pub view_yielded : List StepState → Option StepState → DerivedView
view_yielded steps (some st) = view retrying (some st) st.next_run_at
view_yielded steps none = view_sleeping steps (last_of is_parked_sleep steps)

unfoldable pub view_of : InstanceStatus → List StepState → DerivedView
view_of InstanceStatus.completed steps = view completed none none
view_of InstanceStatus.failed steps = view failed (last_failed_main_step steps) none
view_of InstanceStatus.compensation_failed steps =
    view compensation_failed (last_failed_main_step steps) none
view_of InstanceStatus.cancelled steps = view cancelled none none
view_of InstanceStatus.running steps = view running (latest_running_step steps) none
view_of InstanceStatus.compensating steps =
    view compensating (coalesce (latest_running_step steps) (last_failed_main_step steps)) none
view_of InstanceStatus.yielded steps = view_yielded steps (last_of is_in_flight_retry steps)

-- `deriveView`.
abbrev pub derive_view : InstanceState → List StepState → DerivedView
derive_view i steps = view_of i.status steps

-- The kinds of `DurableStuckKind` that are found locally.
pub data StuckKind : Type 0 where
  running_stale resume_missed : StuckKind

abbrev overdue : Option ℕ → ℕ → ℕ → Bool
overdue none now threshold_ms = false
overdue (some at) now threshold_ms = ltb threshold_ms (now - at)

-- `classifyLocalStuck`.
unfoldable pub classify_local_stuck : InstanceState → DerivedView → ℕ → ℕ → Option StuckKind
classify_local_stuck i v now threshold_ms =
    if is_running i.status && ltb threshold_ms (now - i.updated_at)
    then some running_stale
    else if is_yielded i.status && overdue v.next_run_at now threshold_ms
    then some resume_missed
    else none

-- `DurableRunSummary`.
pub record RunSummary : Type 0 where
  pub instance : InstanceState
  pub view : DerivedView
  pub steps : List StepState
  pub stuck : Option StuckKind
  pub step_count : ℕ
  pub completed_steps : ℕ

-- `STEP_HUNGRY`.
abbrev pub step_hungry : InstanceStatus → Bool
step_hungry InstanceStatus.completed = false
step_hungry InstanceStatus.cancelled = false
step_hungry _ = true

-- A run whose lock is live is not stale.
unfoldable pub unless_locked : Bool → Option StuckKind → Option StuckKind
unless_locked true (some running_stale) = none
unless_locked locked stuck = stuck

unfoldable pub summarize_with : List String → ℕ → ℕ → InstanceState → List StepState → RunSummary
summarize_with locked now threshold_ms i steps = record {
  instance = i;
  view = derive_view i steps;
  steps = steps;
  stuck =
      unless_locked (contains i.id locked)
        (classify_local_stuck i (derive_view i steps) now threshold_ms);
  step_count = length main_steps;
  completed_steps = length (filter (λ st. is_completed_step st.status) main_steps);
}
  where
    main_steps : List StepState
    main_steps = filter (λ st. is_main (or_else st.phase main)) steps

-- `summarizeInstances`.
unfoldable pub summarize_instances : Store → List InstanceState → ℕ → ℕ → List RunSummary
summarize_instances s instances now threshold_ms =
    let running_ids = map (λ i. i.id) (filter (λ i. is_running i.status) instances) in
    let locked = held_locks running_ids now s in
    map
      (λ i.
        summarize_with locked now threshold_ms i
          (if step_hungry i.status then get_steps i.id s else []))
      instances
