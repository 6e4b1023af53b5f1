-- ===== src/Logs/Parsed.antt =====
-- Log entries that are written and read again, by utils/log.ts.
use bullmq_durable.Base.{
  String, Bool, true, false, none, some, ◌≡◌, refl, ap, Bool-cases, Option-cases, ltb→le, ltb→lt,
  ◌⊎◌, inl, inr, ◌=s=◌, starts_with, ◌≤◌, ◌<◌, ltb, if◌then◌else◌, arith,
}
use bullmq_durable.Value.{
  Value, Fields, undefined, null, nan, bool, num, text, date, arr, obj, field, end, json,
  json_items, json_fields,
}
use bullmq_durable.Envelope.{field_at}
use bullmq_durable.Logs.{
  JsonText, DurableLogEntry, entry_fields, wire, truncated, without, durable_or_raw,
  serialize_log_entry, parse_log_line, has_meta, log_marker, max_log_entry_bytes,
}

abbrev has_key : String → Fields → Bool
has_key key end = false
has_key key (field name v fs) = let rest = has_key key fs in if name =s= key then true else rest

-- The text of an object starts with a brace and parses to what JSON keeps of it.
abbrev pub Prints : JsonText → Value → Type 0
Prints js v =
    (starts_with (js.stringify v) "{" ≡ true) × (js.parse (js.stringify v) ≡ some (json v))

has_key-rest : (b c : Bool) → (if b then true else c) ≡ false → (b ≡ false) × (c ≡ false)
has_key-rest b c h = ground arith

without-field :
    (key name : String) (v : Value) (fs kept : Fields)
    → (if name =s= key then true else has_key key fs) ≡ false
    → (has_key key fs ≡ false → without key kept ≡ kept)
    → without key (field name v kept) ≡ field name v kept
unfolding without
without-field key name v fs kept h rest =
    let parts = has_key-rest (name =s= key) (has_key key fs) h in rw (parts.0, rest parts.1) refl

-- What JSON keeps of an object without the marker has no marker.
without-json_fields :
    (key : String) (fs : Fields)
    → has_key key fs ≡ false
    → without key (json_fields fs) ≡ json_fields fs
unfolding without json_fields
without-json_fields key end h = refl
without-json_fields key (field k undefined fs) h =
    without-json_fields key fs (has_key-rest (k =s= key) (has_key key fs) h).1
without-json_fields key (field k null fs) h =
    without-field key k null fs (json_fields fs) h (without-json_fields key fs)
without-json_fields key (field k nan fs) h =
    without-field key k null fs (json_fields fs) h (without-json_fields key fs)
without-json_fields key (field k (bool b) fs) h =
    without-field key k (bool b) fs (json_fields fs) h (without-json_fields key fs)
without-json_fields key (field k (num n) fs) h =
    without-field key k (num n) fs (json_fields fs) h (without-json_fields key fs)
without-json_fields key (field k (text s) fs) h =
    without-field key k (text s) fs (json_fields fs) h (without-json_fields key fs)
without-json_fields key (field k (date s) fs) h =
    without-field key k (text s) fs (json_fields fs) h (without-json_fields key fs)
without-json_fields key (field k (arr xs) fs) h =
    without-field key k (arr (json_items xs)) fs (json_fields fs) h (without-json_fields key fs)
without-json_fields key (field k (obj gs) fs) h =
    without-field key k (obj (json_fields gs)) fs (json_fields fs) h (without-json_fields key fs)

parse-wire :
    (js : JsonText) (e : DurableLogEntry)
    → Prints js (wire e)
    → parse_log_line js (js.stringify (wire e)) ≡ json_fields (entry_fields e)
unfolding parse_log_line wire durable_or_raw field_at without json json_fields entry_fields
parse-wire js e (brace, parsed) =
    rw (brace, parsed) (without-json_fields log_marker (entry_fields e) refl)

-- An entry that is written and read again comes back as JSON keeps it, or, if its line is longer
-- than the limit and it has metadata, with the mark of truncation in the place of the metadata.
pub parse_log_line-serialize_log_entry :
    (js : JsonText) (e : DurableLogEntry)
    → Prints js (wire e)
    → Prints js (wire (truncated e))
    → ((js.size (js.stringify (wire e)) ≤ max_log_entry_bytes ⊎ e.meta ≡ none)
        × (parse_log_line js (serialize_log_entry js e) ≡ json_fields (entry_fields e)))
      ⊎ ((max_log_entry_bytes < js.size (js.stringify (wire e)))
          × ((m : Fields) × (e.meta ≡ some m))
          × (parse_log_line js (serialize_log_entry js e)
              ≡ json_fields (entry_fields (truncated e))))
unfolding serialize_log_entry
parse_log_line-serialize_log_entry js e whole short =
    elim (Bool-cases (ltb max_log_entry_bytes (js.size (js.stringify (wire e))))) [
      | inl long ↦ elim (Option-cases e.meta) [
        | inl bare ↦ inl (inr bare, rw (long, ap has_meta bare) (parse-wire js e whole))
        | inr (m, given) ↦ inr (
          ltb→lt _ _ long,
          (m, given),
          rw (long, ap has_meta given) (parse-wire js (truncated e) short),
        )
      ]
      | inr fits ↦ inl (inl (ltb→le _ _ fits), rw (fits) (parse-wire js e whole))
    ]
