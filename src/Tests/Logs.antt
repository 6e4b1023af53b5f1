-- ===== src/Tests/Logs.antt =====
-- A line of a job's log that is written and read again.
use Prim.Native.String.{count}
use bullmq_durable.Base.{
  String, ◌=s=◌, Option, none, some, ◌≡◌, refl, [], ◌∷◌, if◌then◌else◌, ◌⊎◌, ◌≤◌, ◌<◌,
}
use bullmq_durable.Value.{Value, Fields, json, json_items, json_fields, field, num, obj, end}
use bullmq_durable.Inspect.Events.{log}
use bullmq_durable.Envelope.{field_at}
use bullmq_durable.Logs.{
  JsonText, DurableLogEntry, assign, backfill, backfill_step, durable_or_raw, entry_fields,
  parse_job_logs, parse_log_line, raw_line, serialize_log_entry, truncated, wire, without,
}
use bullmq_durable.Logs.Parsed.{parse_log_line-serialize_log_entry}

abbrev entry : DurableLogEntry
entry = record {
  message = "hi";
  timestamp = 5;
  kind = log;
  run_count = some 1;
  job_attempt = none;
  step = some "a";
  step_attempt = some 1;
  phase = none;
  event = none;
  err = none;
  retry_in_ms = none;
  meta = some (field "n" (num 2) end);
}

abbrev whole_line : String
whole_line =
    "{\"$durable\":1,\"message\":\"hi\",\"timestamp\":5,\"kind\":\"log\",\"runCount\":1,\"step\":\"a\",\"stepAttempt\":1,\"meta\":{\"n\":2}}"

abbrev short_line : String
short_line =
    "{\"$durable\":1,\"message\":\"hi\",\"timestamp\":5,\"kind\":\"log\",\"runCount\":1,\"step\":\"a\",\"stepAttempt\":1,\"meta\":{\"$truncated\":true}}"

abbrev line_of : Option Value → String
unfolding field_at
line_of (some (obj m)) = elim (field_at "n" m) [ none ↦ short_line | some _ ↦ whole_line ]
line_of _ = "null"

-- JSON on the two objects that the entry is written as.
abbrev print : Value → String
unfolding field_at
print (obj fs) = line_of (field_at "meta" fs)
print _ = "null"

abbrev parse : String → Option Value
unfolding wire truncated entry_fields json json_items json_fields
parse line =
    if line =s= whole_line
    then some (json (wire entry))
    else (if line =s= short_line then some (json (wire (truncated entry))) else none)

abbrev js : JsonText
js = record { stringify = print; parse = parse; size = count }

written_and_foreign :
    backfill 3 (parse_job_logs js ("{oops" ∷ serialize_log_entry js entry ∷ "done" ∷ []))
    ≡ assign "timestamp" (num 3) (raw_line "{oops")
      ∷ json_fields (entry_fields entry)
      ∷ assign "timestamp" (num 5) (raw_line "done")
      ∷ []
unfolding backfill backfill_step parse_job_logs serialize_log_entry parse_log_line durable_or_raw
    raw_line assign without field_at wire truncated entry_fields json json_items json_fields
written_and_foreign = refl

parse_log_line-serialize_log_entry_example :
    ((js.size (js.stringify (wire entry)) ≤ 8192 ⊎ entry.meta ≡ none)
      × (parse_log_line js (serialize_log_entry js entry) ≡ json_fields (entry_fields entry)))
    ⊎ ((8192 < js.size (js.stringify (wire entry)))
        × ((m : Fields) × (entry.meta ≡ some m))
        × (parse_log_line js (serialize_log_entry js entry)
            ≡ json_fields (entry_fields (truncated entry))))
unfolding wire truncated entry_fields field_at json json_items json_fields
parse_log_line-serialize_log_entry_example =
    parse_log_line-serialize_log_entry js entry (refl, refl) (refl, refl)
