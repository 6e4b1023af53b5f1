-- ===== src/Logs.antt =====
-- utils/log.ts: the lines of a job's log, and the times that `DurableRun.logs` of run.ts gives to
-- foreign lines. `JSON.stringify` and `JSON.parse` of texts are a parameter.
pub mod Parsed
use bullmq_durable.Base.{
  ℕ, String, Bool, true, false, Option, none, some, List, [], ◌∷◌, ◌++◌, map, ◌=s=◌, starts_with,
  ◌==◌, ltb, if◌then◌else◌,
}
use mathlib.Core.List.{flat_map}
use bullmq_durable.Types.{InstanceState}
use bullmq_durable.Phase.{resume_job_id}
use bullmq_durable.Value.{Value, Fields, undefined, obj, text, num, field, end}
use bullmq_durable.Envelope.{field_at}
use bullmq_durable.Inspect.Events.{LogKind, log, event, raw}

-- `JSON`, with `none` where `JSON.parse` throws, and the length of a text in UTF-16 units.
pub record JsonText : Type 0 where
  pub stringify : Value → String
  pub parse : String → Option Value
  pub size : String → ℕ

-- `DurableLogEntry`.
pub record DurableLogEntry : Type 0 where
  pub message : String
  pub timestamp : ℕ
  pub kind : LogKind
  pub run_count : Option ℕ
  pub job_attempt : Option ℕ
  pub step : Option String
  pub step_attempt : Option ℕ
  pub phase : Option String
  pub event : Option String
  pub err : Option (String × String)
  pub retry_in_ms : Option ℕ
  pub meta : Option Fields

abbrev pub log_marker : String
log_marker = "$durable"

abbrev pub log_version : ℕ
log_version = 1

abbrev pub max_log_entry_bytes : ℕ
max_log_entry_bytes = 8192

abbrev kind_text : LogKind → String
kind_text log = "log"
kind_text event = "event"
kind_text raw = "raw"

-- A field that is absent is one that is `undefined`, which JSON drops.
abbrev value_of {ℓ} : {A : Type ℓ} → (A → Value) → Option A → Value
value_of f none = undefined
value_of f (some x) = f x

abbrev err_value : String × String → Value
err_value (name, message) = obj (field "name" (text name) (field "message" (text message) end))

-- The entry as an object of JavaScript.
unfoldable pub entry_fields : DurableLogEntry → Fields
entry_fields e = field "message" (text e.message) (
    field "timestamp" (num e.timestamp) (
      field "kind" (text (kind_text e.kind)) (
        field "runCount" (value_of num e.run_count) (
          field "jobAttempt" (value_of num e.job_attempt) (
            field "step" (value_of text e.step) (
              field "stepAttempt" (value_of num e.step_attempt) (
                field "phase" (value_of text e.phase) (
                  field "event" (value_of text e.event) (
                    field "err" (value_of err_value e.err) (
                      field "retryInMs" (value_of num e.retry_in_ms)
                        (field "meta" (value_of obj e.meta) end)))))))))))

-- `wire`: the entry behind the marker.
unfoldable pub wire : DurableLogEntry → Value
wire e = obj (field log_marker (num log_version) (entry_fields e))

-- `meta: { $truncated: true }`.
unfoldable pub truncated : DurableLogEntry → DurableLogEntry
truncated e = record e { meta = some (field "$truncated" (Value.bool true) end) }

abbrev pub has_meta : Option Fields → Bool
has_meta none = false
has_meta (some _) = true

-- `{ ...entry }` without the property `key`.
unfoldable pub without : String → Fields → Fields
without key end = end
without key (field name v fs) =
    let rest = without key fs in if name =s= key then rest else field name v rest

unfoldable pub raw_line : String → Fields
raw_line line =
    field "kind" (text "raw") (field "message" (text line) (field "timestamp" (num 0) end))

abbrev is_version : Option Value → Bool
is_version (some (num n)) = n == log_version
is_version _ = false

-- What a text that parsed stands for.
unfoldable pub durable_or_raw : String → Option Value → Fields
unfolding field_at without raw_line
durable_or_raw line (some (obj fs)) =
    if is_version (field_at log_marker fs) then without log_marker fs else raw_line line
durable_or_raw line _ = raw_line line

module _ (js : JsonText) where
  -- `serializeLogEntry`.
  unfoldable pub serialize_log_entry : DurableLogEntry → String
  unfolding wire truncated
  serialize_log_entry e =
      let line = js.stringify (wire e) in
      let short = js.stringify (wire (truncated e)) in
      if ltb max_log_entry_bytes (js.size line)
      then (if has_meta e.meta then short else line)
      else line

  -- `parseLogLine`.
  unfoldable pub parse_log_line : String → Fields
  unfolding durable_or_raw raw_line
  parse_log_line line =
      if starts_with line "{" then durable_or_raw line (js.parse line) else raw_line line

  -- `parseJobLogs`.
  unfoldable pub parse_job_logs : List String → List Fields
  unfolding parse_log_line
  parse_job_logs lines = map parse_log_line lines

-- `entry.kind === "raw"` and the numbers that are read of a parsed entry.
abbrev is_raw : Option Value → Bool
is_raw (some (text s)) = s =s= "raw"
is_raw _ = false

abbrev time_of : Option Value → Option ℕ
time_of (some (num n)) = some n
time_of _ = none

-- `entry[key] = value`.
unfoldable pub assign : String → Value → Fields → Fields
assign key v end = field key v end
assign key v (field name w fs) =
    let rest = assign key v fs in if name =s= key then field name v fs else field name w rest

-- An entry and the last time that is known, after one round of the loop.
unfoldable pub backfill_step : ℕ → Fields → Bool → Option ℕ → Fields × ℕ
unfolding assign
backfill_step last entry is_raw_entry none = (entry, last)
backfill_step last entry is_raw_entry (some n) =
    if n == 0
    then (if is_raw_entry then (assign "timestamp" (num last) entry, last) else (entry, last))
    else (entry, n)

-- The loop of `logs`, which gives a foreign line the time of the line before.
unfoldable pub backfill : ℕ → List Fields → List Fields
unfolding backfill_step field_at
backfill last [] = []
backfill last (entry ∷ entries) =
    let r =
      backfill_step last entry (is_raw (field_at "kind" entry))
        (time_of (field_at "timestamp" entry)) in
    r.0 ∷ backfill r.1 entries

-- `this.ctx.store.legacyLogs?.(this.id)`, the lists of the jobs' logs, and the job that an old
-- version resumed with; a listing that throws is empty.
abbrev lines_or_none : Option (List String) → List String
lines_or_none none = []
lines_or_none (some lines) = lines

abbrev resumed_job : InstanceState → Option ℕ → List String
resumed_job i none = []
resumed_job i (some n) = if n == 0 then [] else resume_job_id i.original_job_id n ∷ []

abbrev log_jobs : String → Option InstanceState → List String
log_jobs job_id none = job_id ∷ []
log_jobs job_id (some i) = job_id ∷ resumed_job i i.resume_seq

abbrev legacy_of : List Fields → Option InstanceState → List Fields
legacy_of legacy none = []
legacy_of legacy (some _) = legacy

abbrev first_time : Option InstanceState → ℕ
first_time none = 0
first_time (some i) = i.created_at

-- `DurableRun.logs`.
unfoldable pub run_logs :
    JsonText
    → (String → Option (List String))
    → List Fields
    → String
    → Option InstanceState
    → List Fields
unfolding backfill parse_job_logs
run_logs js get_job_logs legacy job_id instance_of = backfill (first_time instance_of) (
    legacy_of legacy instance_of
    ++ flat_map (λ id. parse_job_logs js (lines_or_none (get_job_logs id)))
        (log_jobs job_id instance_of))
