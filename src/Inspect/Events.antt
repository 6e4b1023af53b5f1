-- ===== src/Inspect/Events.antt =====
-- The event timeline of inspect/derive.ts. `toISOString` is a parameter.
use bullmq_durable.Base.{
  ℕ, String, ◌+++◌, Bool, true, false, Option, none, some, List, [], ◌∷◌, ◌++◌, ◌≤◌, leb,
  if◌then◌else◌, or_else, arith,
}
use mathlib.Core.List.{Perm}
use bullmq_durable.Value.{Value}
use bullmq_durable.Errors.{SerializedError, decimal}
use bullmq_durable.Types.{
  InstanceState, StepState, is_sleep, is_running_step, is_completed_step, is_failed_step,
}
use mathlib.Core.List.Perm

-- `DurableLogEntry`, with the fields that the timeline reads; `is_step_failed` is
-- `event === "step_failed"`.
pub data LogKind : Type 0 where
  log event raw : LogKind

pub record LogEntry : Type 0 where
  pub message : String
  pub timestamp : ℕ
  pub kind : LogKind
  pub step : Option String
  pub is_step_failed : Bool
  pub meta : Option Value

-- `DurableRunEvent`.
pub data EventType : Type 0 where
  instance step sleep retry log error : EventType

pub data EventLevel : Type 0 where
  info warn error : EventLevel

pub data EventMeta : Type 0 where
  scheduled : ℕ → ℕ → EventMeta
  logged : Value → EventMeta

pub record RunEvent : Type 0 where
  pub timestamp : ℕ
  pub type : EventType
  pub level : EventLevel
  pub message : String
  pub step_key : Option String
  pub meta : Option EventMeta

abbrev step_event : StepState → ℕ → EventType → EventLevel → String → RunEvent
step_event st at type level message = record {
  timestamp = at;
  type = type;
  level = level;
  message = message;
  step_key = some st.key;
  meta = none;
}

abbrev step_or_sleep : StepState → EventType
step_or_sleep st = if is_sleep st.type then EventType.sleep else EventType.step

abbrev started_message : StepState → String
started_message st =
    if is_sleep st.type
    then "Sleep \"" +++ (st.key +++ "\" started")
    else "Step \"" +++ (st.key +++ ("\" started (attempt " +++ (decimal st.attempts +++ ")")))

unfoldable pub started_events : StepState → List RunEvent
started_events st = elim st.started_at [
  | none ↦ []
  | some at ↦ step_event st at (step_or_sleep st) EventLevel.info (started_message st) ∷ []
]

unfoldable pub completed_events : StepState → List RunEvent
completed_events st = elim st.completed_at [
  | none ↦ []
  | some at ↦
      if is_completed_step st.status
      then step_event st at (step_or_sleep st) EventLevel.info (
          if is_sleep st.type
          then "Sleep \"" +++ (st.key +++ "\" elapsed")
          else "Step \"" +++ (st.key +++ "\" completed"))
        ∷ []
      else []
]

abbrev pub message_of : Option SerializedError → String
message_of none = "unknown error"
message_of (some e) = e.message

unfoldable pub failed_events : StepState → List RunEvent
failed_events st = elim st.failed_at [
  | none ↦ []
  | some at ↦
      if is_failed_step st.status
      then step_event st at EventType.error EventLevel.error
          ("Step \"" +++ (st.key +++ ("\" failed: " +++ message_of st.error)))
        ∷ []
      else []
]

abbrev log_level : LogKind → Bool → EventLevel
log_level event true = EventLevel.error
log_level _ _ = EventLevel.info

abbrev logged_meta : Option Value → Option EventMeta
logged_meta none = none
logged_meta (some v) = some (logged v)

unfoldable pub log_events : List LogEntry → List RunEvent
log_events [] = []
log_events (entry ∷ entries) =
    record {
      timestamp = entry.timestamp;
      type = EventType.log;
      level = log_level entry.kind entry.is_step_failed;
      message = entry.message;
      step_key = entry.step;
      meta = logged_meta entry.meta;
    }
    ∷ log_events entries

abbrev instance_event : ℕ → EventType → EventLevel → String → RunEvent
instance_event at type level message = record {
  timestamp = at;
  type = type;
  level = level;
  message = message;
  step_key = none;
  meta = none;
}

abbrev pub created_message : InstanceState → String
created_message i =
    "Instance created on queue \"" +++ (i.queue_name +++ ("\" (job \"" +++ (i.job_name +++ "\")")))

unfoldable pub end_events : InstanceState → Option ℕ → Option ℕ → List RunEvent
end_events i none none = []
end_events i (some at) none =
    instance_event at EventType.instance EventLevel.info "Instance completed" ∷ []
end_events i none (some at) =
    instance_event at EventType.error EventLevel.error ("Instance failed: " +++ message_of i.error)
    ∷ []
end_events i (some at) (some later) =
    instance_event at EventType.instance EventLevel.info "Instance completed"
    ∷ instance_event later EventType.error EventLevel.error
        ("Instance failed: " +++ message_of i.error)
    ∷ []

-- `.sort((a, b) => a.timestamp - b.timestamp)`, which is stable.
unfoldable pub insert_event : RunEvent → List RunEvent → List RunEvent
insert_event x [] = x ∷ []
insert_event x (y ∷ ys) = if leb x.timestamp y.timestamp then x ∷ y ∷ ys else y ∷ insert_event x ys

unfoldable pub sort_events : List RunEvent → List RunEvent
sort_events [] = []
sort_events (x ∷ xs) = insert_event x (sort_events xs)

-- By ascending time.
abbrev pub Ascends : List RunEvent → Type 0
Ascends [] = Unit
Ascends (x ∷ []) = Unit
Ascends (x ∷ y ∷ ys) = (x.timestamp ≤ y.timestamp) × Ascends (y ∷ ys)

if_Perm :
    (b : Bool) (xs ys l : List RunEvent) → Perm xs l → Perm ys l → Perm (if b then xs else ys) l
if_Perm true xs ys l h k = h
if_Perm false xs ys l h k = k

insert_event-Perm : (x : RunEvent) (l : List RunEvent) → Perm (insert_event x l) (x ∷ l)
unfolding insert_event
insert_event-Perm x [] = Perm.rfl
insert_event-Perm x (y ∷ ys) =
    if_Perm (leb x.timestamp y.timestamp) (x ∷ y ∷ ys) _ _ Perm.rfl
      (Perm.trans (Perm.cons y (insert_event-Perm x ys)) (Perm.swap x y ys))

sort_events-Perm : (l : List RunEvent) → Perm (sort_events l) l
unfolding sort_events
sort_events-Perm [] = Perm.rfl
sort_events-Perm (x ∷ xs) =
    Perm.trans (insert_event-Perm x (sort_events xs)) (Perm.cons x (sort_events-Perm xs))

insert_event-Ascends : (x : RunEvent) (l : List RunEvent) → Ascends l → Ascends (insert_event x l)
unfolding insert_event
insert_event-Ascends x [] h = tt
insert_event-Ascends x (y ∷ []) h = ground arith
insert_event-Ascends x (y ∷ z ∷ zs) (le, h) = ground (arith, insert_event-Ascends x (z ∷ zs) h)

sort_events-Ascends : (l : List RunEvent) → Ascends (sort_events l)
unfolding sort_events
sort_events-Ascends [] = tt
sort_events-Ascends (x ∷ xs) = insert_event-Ascends x (sort_events xs) (sort_events-Ascends xs)

module _ (to_iso_string : ℕ → String) where
  abbrev scheduled_event : StepState → ℕ → RunEvent
  scheduled_event st next_run_at = record {
    timestamp = or_else st.failed_at (or_else st.started_at next_run_at);
    type = if is_sleep st.type then EventType.sleep else EventType.retry;
    level = if is_sleep st.type then EventLevel.info else EventLevel.warn;
    message =
        if is_sleep st.type
        then "Sleeping until " +++ to_iso_string next_run_at
        else "Step \"" +++ (st.key +++ "\" scheduled to retry");
    step_key = some st.key;
    meta = some (scheduled next_run_at st.attempts);
  }

  unfoldable pub scheduled_events : StepState → List RunEvent
  scheduled_events st = elim st.next_run_at [
    | none ↦ []
    | some at ↦ if is_running_step st.status then scheduled_event st at ∷ [] else []
  ]

  unfoldable pub step_events : List StepState → List RunEvent
  step_events [] = []
  step_events (st ∷ sts) =
      started_events st
      ++ (scheduled_events st ++ (completed_events st ++ (failed_events st ++ step_events sts)))

  -- The events in the order in which they are pushed.
  unfoldable pub pushed_events : InstanceState → List StepState → List LogEntry → List RunEvent
  pushed_events i steps logs =
      instance_event i.created_at EventType.instance EventLevel.info (created_message i)
      ∷ (step_events steps ++ (log_events logs ++ end_events i i.completed_at i.failed_at))

  -- `synthesizeEvents`.
  unfoldable pub synthesize_events : InstanceState → List StepState → List LogEntry → List RunEvent
  synthesize_events i steps logs = sort_events (pushed_events i steps logs)

  -- The timeline holds each event that is pushed as often as it is pushed, by ascending time.
  pub synthesize_events-order :
      (i : InstanceState) (steps : List StepState) (logs : List LogEntry)
      → Perm (synthesize_events i steps logs) (pushed_events i steps logs)
        × Ascends (synthesize_events i steps logs)
  unfolding synthesize_events
  synthesize_events-order i steps logs = (
    sort_events-Perm (pushed_events i steps logs),
    sort_events-Ascends (pushed_events i steps logs),
  )
