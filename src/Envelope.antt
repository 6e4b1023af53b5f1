-- ===== src/Envelope.antt =====
-- legacy/envelope.ts: the data of a 0.1.x resume job, which wraps the user's payload.
use bullmq_durable.Base.{ℕ, String, Option, none, some, ◌≡◌, refl, ◌=s=◌, if◌then◌else◌}
use bullmq_durable.Value.{Value, Fields, obj, text, num, field, end}

-- `DurableMeta`.
pub record DurableMeta : Type 0 where
  pub instance_id : String
  pub original_job_id : String
  pub resume_seq : ℕ

-- `DURABLE_META_KEY`.
abbrev pub durable_meta_key : String
durable_meta_key = "__durable__"

-- `wrapResumeData`.
unfoldable pub wrap_resume_data : Value → DurableMeta → Value
wrap_resume_data payload m = obj (
    field durable_meta_key
      (obj (
        field "instanceId" (text m.instance_id) (
          field "originalJobId" (text m.original_job_id)
            (field "resumeSeq" (num m.resume_seq) end))))
      (field "payload" payload end))

-- `key in data`, and the value there.
unfoldable pub field_at : String → Fields → Option Value
field_at key end = none
field_at key (field name v fs) = let rest = field_at key fs in if name =s= key then some v else rest

abbrev as_text : Option Value → Option String
as_text none = none
as_text (some (text s)) = some s
as_text (some _) = none

abbrev as_number : Option Value → Option ℕ
as_number none = none
as_number (some (num n)) = some n
as_number (some _) = none

abbrev meta_of_parts : Option String → Option String → Option ℕ → Option DurableMeta
meta_of_parts (some i) (some j) (some n) =
    some (record { instance_id = i; original_job_id = j; resume_seq = n })
meta_of_parts _ _ _ = none

-- The check of the metadata's shape.
unfoldable pub meta_of : Value → Option DurableMeta
unfolding field_at
meta_of (obj fs) =
    meta_of_parts (as_text (field_at "instanceId" fs)) (as_text (field_at "originalJobId" fs))
      (as_number (field_at "resumeSeq" fs))
meta_of _ = none

abbrev meta_found : Option Value → Option DurableMeta
meta_found none = none
meta_found (some v) = meta_of v

abbrev both : Option DurableMeta → Option Value → Option (DurableMeta × Value)
both (some m) (some p) = some (m, p)
both _ _ = none

-- `isResumeEnvelope`, with what the envelope holds.
unfoldable pub envelope_of : Value → Option (DurableMeta × Value)
unfolding field_at
envelope_of (obj fs) = both (meta_found (field_at durable_meta_key fs)) (field_at "payload" fs)
envelope_of _ = none

unfoldable pub unwrapped : Value → Option (DurableMeta × Value) → Option DurableMeta × Value
unwrapped data_of none = (none, data_of)
unwrapped data_of (some (m, p)) = (some m, p)

-- `unwrapResumeData`.
unfoldable pub unwrap_resume_data : Value → Option DurableMeta × Value
unfolding envelope_of unwrapped
unwrap_resume_data data_of = unwrapped data_of (envelope_of data_of)

-- Unwrapping what was wrapped gives the metadata and the payload back, whatever they are.
pub unwrap_resume_data-wrap_resume_data :
    (payload : Value) (m : DurableMeta)
    → unwrap_resume_data (wrap_resume_data payload m) ≡ (some m, payload)
unfolding unwrap_resume_data wrap_resume_data envelope_of unwrapped field_at meta_of
unwrap_resume_data-wrap_resume_data payload m = refl
