-- ===== src/Redis/Texts.antt =====
-- The texts of an instance hash (store/redis-store.ts): `encodeInstanceFields` and the reading of
-- `parseInstance`, whose fields `Hash` gives by what their texts stand for. `String` and `parseInt` of
-- numbers and JSON are parameters. A text that does not parse reads as an absent field here, where
-- the source throws for JSON.
use bullmq_durable.Base.{
  ℕ, String, ◌=s=◌, Bool, true, false, Option, none, some, [], ◌∷◌, ◌≡◌, refl, ◌∙◌, ap,
  if◌then◌else◌, coalesce,
}
use bullmq_durable.Base.Dict.{Dict, lookup}
use bullmq_durable.Value.{Value, undefined, json}
use bullmq_durable.Errors.{SerializedError}
use bullmq_durable.Types.{
  InstanceState, InstanceStatus, CompensationReport, running, yielded, compensating, completed,
  failed, compensation_failed, cancelled,
}
use bullmq_durable.Store.{clone_instance}
use bullmq_durable.Redis.{Hash}
use bullmq_durable.Redis.Fields.{
  PartialInstance, encode_value, encode_instance_fields, parse_instance, all_fields,
  parse_instance-encode_instance_fields,
}

-- How a kind of value is written as a text and read again.
pub record Form {ℓ} (A : Type ℓ) : Type ℓ where
  pub print : A → String
  pub read : String → Option A

-- `String` and `parseInt`, and `JSON.stringify` and `JSON.parse` of values, errors and reports.
pub record Texts : Type 0 where
  pub number : Form ℕ
  pub value : Form Value
  pub error : Form SerializedError
  pub report : Form CompensationReport

abbrev pub status_text : InstanceStatus → String
status_text running = "running"
status_text yielded = "yielded"
status_text compensating = "compensating"
status_text completed = "completed"
status_text failed = "failed"
status_text compensation_failed = "compensation_failed"
status_text cancelled = "cancelled"

unfoldable pub read_status : String → Option InstanceStatus
read_status s =
    if s =s= "running"
    then some running
    else if s =s= "yielded"
    then some yielded
    else if s =s= "compensating"
    then some compensating
    else if s =s= "completed"
    then some completed
    else if s =s= "failed"
    then some failed
    else if s =s= "compensation_failed"
    then some compensation_failed
    else if s =s= "cancelled"
    then some cancelled
    else none

abbrev pub status_form : Form InstanceStatus
unfolding read_status
status_form = record { print = status_text; read = read_status }

-- `str`, and `out.push(key, text)` of a field that is present.
unfoldable pub push : String → Option String → Dict String → Dict String
push key none rest = rest
push key (some s) rest = (key, s) ∷ rest

abbrev pub printed {ℓ} : {A : Type ℓ} → Form A → Option A → Option String
printed f none = none
printed f (some x) = some (f.print x)

abbrev pub present : Value → Option Value
present undefined = none
present v = some v

-- `encodeInstanceFields`.
unfoldable pub encode_texts : Texts → PartialInstance → Dict String
unfolding push
encode_texts js p = push "id" p.id (
    push "queueName" p.queue_name (
      push "jobName" p.job_name (
        push "originalJobId" p.original_job_id (
          push "status" (printed status_form p.status) (
            push "failedStep" p.failed_step (
              push "runCount" (printed js.number p.run_count) (
                push "stepSeq" (printed js.number p.step_seq) (
                  push "createdAt" (printed js.number p.created_at) (
                    push "updatedAt" (printed js.number p.updated_at) (
                      push "completedAt" (printed js.number p.completed_at) (
                        push "failedAt" (printed js.number p.failed_at) (
                          push "input" (printed js.value (present p.input)) (
                            push "output" (printed js.value (present p.output)) (
                              push "error" (printed js.error p.error) (
                                push "failureError" (printed js.error p.failure_error) (
                                  push "compensation" (printed js.report p.compensation)
                                    []))))))))))))))))

abbrev pub read_as {ℓ} : {A : Type ℓ} → Form A → Option String → Option A
read_as f none = none
read_as f (some s) = f.read s

-- What the texts of a hash stand for.
unfoldable pub read_hash : Texts → Dict String → Hash
unfolding lookup
read_hash js d = record {
  id = lookup "id" d;
  queue_name = lookup "queueName" d;
  job_name = lookup "jobName" d;
  original_job_id = lookup "originalJobId" d;
  status = read_as status_form (lookup "status" d);
  input = read_as js.value (lookup "input" d);
  output = read_as js.value (lookup "output" d);
  error = read_as js.error (lookup "error" d);
  failure_error = read_as js.error (lookup "failureError" d);
  failed_step = lookup "failedStep" d;
  compensation = read_as js.report (lookup "compensation" d);
  run_count = read_as js.number (lookup "runCount" d);
  resume_seq = read_as js.number (lookup "resumeSeq" d);
  step_seq = read_as js.number (lookup "stepSeq" d);
  created_at = read_as js.number (lookup "createdAt" d);
  updated_at = read_as js.number (lookup "updatedAt" d);
  completed_at = read_as js.number (lookup "completedAt" d);
  failed_at = read_as js.number (lookup "failedAt" d);
}

lookup-push :
    (key name : String) (o : Option String) (d : Dict String)
    → lookup key (push name o d)
      ≡ (if name =s= key then coalesce o (lookup key d) else lookup key d)
unfolding lookup push
lookup-push key name none d = same (name =s= key)
  where
    same : (b : Bool) → lookup key d ≡ (if b then lookup key d else lookup key d)
    same true = refl
    same false = refl
lookup-push key name (some s) d = refl

coalesce-none {ℓ} : {A : Type ℓ} (o : Option A) → coalesce o none ≡ o
coalesce-none none = refl
coalesce-none (some x) = refl

-- What is written of the field is read as it was.
abbrev pub Reads {ℓ} : {A : Type ℓ} → Form A → Option A → Type ℓ
Reads f none = Unit
Reads f (some x) = f.read (f.print x) ≡ some x

-- A value is read as JSON keeps it.
abbrev pub ReadsValue : Form Value → Value → Type 0
ReadsValue f undefined = Unit
ReadsValue f v = f.read (f.print v) ≡ some (json v)

-- The numbers, values, errors and reports of a patch are read as they were.
pub record Readable (js : Texts) (p : PartialInstance) : Type 0 where
  pub run_count : Reads js.number p.run_count
  pub step_seq : Reads js.number p.step_seq
  pub created_at : Reads js.number p.created_at
  pub updated_at : Reads js.number p.updated_at
  pub completed_at : Reads js.number p.completed_at
  pub failed_at : Reads js.number p.failed_at
  pub input : ReadsValue js.value p.input
  pub output : ReadsValue js.value p.output
  pub error : Reads js.error p.error
  pub failure_error : Reads js.error p.failure_error
  pub compensation : Reads js.report p.compensation

read_back {ℓ} : {A : Type ℓ} (f : Form A) (o : Option A) → Reads f o → read_as f (printed f o) ≡ o
read_back f none h = refl
read_back f (some x) h = h

read_value :
    (f : Form Value) (v : Value)
    → ReadsValue f v
    → read_as f (printed f (present v)) ≡ encode_value v
unfolding encode_value json
read_value f undefined h = refl
read_value f v h = h

status_text-Reads : (o : Option InstanceStatus) → Reads status_form o
unfolding read_status
status_text-Reads none = tt
status_text-Reads (some running) = refl
status_text-Reads (some yielded) = refl
status_text-Reads (some compensating) = refl
status_text-Reads (some completed) = refl
status_text-Reads (some failed) = refl
status_text-Reads (some compensation_failed) = refl
status_text-Reads (some cancelled) = refl

-- Where each field stands among the pairs.
module _ (js : Texts) (p : PartialInstance) where
  at_id : lookup "id" (encode_texts js p) ≡ p.id
  unfolding encode_texts lookup
  at_id = simp (lookup-push, coalesce-none)

  at_queue_name : lookup "queueName" (encode_texts js p) ≡ p.queue_name
  unfolding encode_texts lookup
  at_queue_name = simp (lookup-push, coalesce-none)

  at_job_name : lookup "jobName" (encode_texts js p) ≡ p.job_name
  unfolding encode_texts lookup
  at_job_name = simp (lookup-push, coalesce-none)

  at_original_job_id : lookup "originalJobId" (encode_texts js p) ≡ p.original_job_id
  unfolding encode_texts lookup
  at_original_job_id = simp (lookup-push, coalesce-none)

  at_status : lookup "status" (encode_texts js p) ≡ printed status_form p.status
  unfolding encode_texts lookup
  at_status = simp (lookup-push, coalesce-none)

  at_failed_step : lookup "failedStep" (encode_texts js p) ≡ p.failed_step
  unfolding encode_texts lookup
  at_failed_step = simp (lookup-push, coalesce-none)

  at_run_count : lookup "runCount" (encode_texts js p) ≡ printed js.number p.run_count
  unfolding encode_texts lookup
  at_run_count = simp (lookup-push, coalesce-none)

  at_step_seq : lookup "stepSeq" (encode_texts js p) ≡ printed js.number p.step_seq
  unfolding encode_texts lookup
  at_step_seq = simp (lookup-push, coalesce-none)

  at_created_at : lookup "createdAt" (encode_texts js p) ≡ printed js.number p.created_at
  unfolding encode_texts lookup
  at_created_at = simp (lookup-push, coalesce-none)

  at_updated_at : lookup "updatedAt" (encode_texts js p) ≡ printed js.number p.updated_at
  unfolding encode_texts lookup
  at_updated_at = simp (lookup-push, coalesce-none)

  at_completed_at : lookup "completedAt" (encode_texts js p) ≡ printed js.number p.completed_at
  unfolding encode_texts lookup
  at_completed_at = simp (lookup-push, coalesce-none)

  at_failed_at : lookup "failedAt" (encode_texts js p) ≡ printed js.number p.failed_at
  unfolding encode_texts lookup
  at_failed_at = simp (lookup-push, coalesce-none)

  at_input : lookup "input" (encode_texts js p) ≡ printed js.value (present p.input)
  unfolding encode_texts lookup
  at_input = simp (lookup-push, coalesce-none)

  at_output : lookup "output" (encode_texts js p) ≡ printed js.value (present p.output)
  unfolding encode_texts lookup
  at_output = simp (lookup-push, coalesce-none)

  at_error : lookup "error" (encode_texts js p) ≡ printed js.error p.error
  unfolding encode_texts lookup
  at_error = simp (lookup-push, coalesce-none)

  at_failure_error : lookup "failureError" (encode_texts js p) ≡ printed js.error p.failure_error
  unfolding encode_texts lookup
  at_failure_error = simp (lookup-push, coalesce-none)

  at_compensation : lookup "compensation" (encode_texts js p) ≡ printed js.report p.compensation
  unfolding encode_texts lookup
  at_compensation = simp (lookup-push, coalesce-none)

  at_resume_seq : lookup "resumeSeq" (encode_texts js p) ≡ none
  unfolding encode_texts lookup
  at_resume_seq = simp (lookup-push)

pub read_hash-encode_texts :
    (js : Texts) (p : PartialInstance)
    → Readable js p
    → read_hash js (encode_texts js p) ≡ encode_instance_fields p
unfolding read_hash encode_instance_fields
read_hash-encode_texts js p h = λ k. record {
  id = at_id js p k;
  queue_name = at_queue_name js p k;
  job_name = at_job_name js p k;
  original_job_id = at_original_job_id js p k;
  status =
      (ap (read_as status_form) (at_status js p)
          ∙ read_back status_form p.status (status_text-Reads p.status))
        k;
  input = (ap (read_as js.value) (at_input js p) ∙ read_value js.value p.input h.input) k;
  output = (ap (read_as js.value) (at_output js p) ∙ read_value js.value p.output h.output) k;
  error = (ap (read_as js.error) (at_error js p) ∙ read_back js.error p.error h.error) k;
  failure_error =
      (ap (read_as js.error) (at_failure_error js p)
          ∙ read_back js.error p.failure_error h.failure_error)
        k;
  failed_step = at_failed_step js p k;
  compensation =
      (ap (read_as js.report) (at_compensation js p)
          ∙ read_back js.report p.compensation h.compensation)
        k;
  run_count =
      (ap (read_as js.number) (at_run_count js p) ∙ read_back js.number p.run_count h.run_count) k;
  resume_seq = ap (read_as js.number) (at_resume_seq js p) k;
  step_seq =
      (ap (read_as js.number) (at_step_seq js p) ∙ read_back js.number p.step_seq h.step_seq) k;
  created_at =
      (ap (read_as js.number) (at_created_at js p) ∙ read_back js.number p.created_at h.created_at)
        k;
  updated_at =
      (ap (read_as js.number) (at_updated_at js p) ∙ read_back js.number p.updated_at h.updated_at)
        k;
  completed_at =
      (ap (read_as js.number) (at_completed_at js p)
          ∙ read_back js.number p.completed_at h.completed_at)
        k;
  failed_at =
      (ap (read_as js.number) (at_failed_at js p) ∙ read_back js.number p.failed_at h.failed_at) k;
}

-- An instance without `resumeSeq` that is written as texts and read again is the instance, up to a
-- clone of its input and output, if what is printed can be read.
pub parse_instance-encode_texts :
    (js : Texts) (i : InstanceState)
    → Readable js (all_fields i)
    → i.resume_seq ≡ none
    → parse_instance (read_hash js (encode_texts js (all_fields i))) ≡ clone_instance i
parse_instance-encode_texts js i h fresh =
    ap parse_instance (read_hash-encode_texts js (all_fields i) h)
    ∙ parse_instance-encode_instance_fields i fresh
