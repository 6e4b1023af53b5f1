-- ===== src/Redis/Represents.antt =====
-- A write of one instance in Redis and the same write in memory: the hash goes on to read as the
-- instance.
use bullmq_durable.Base.{
  ℕ, Option, none, some, ◌≡◌, refl, coalesce, or_else, if◌then◌else◌, ◌+◌, List, [], ◌∷◌, ap, ◌∙◌,
  Bool-cases, ◌≢◌, ◌⊎◌, inl, inr, sym,
}
use bullmq_durable.Value.{Value, undefined, clone_value}
use bullmq_durable.Value.Clone.{clone_value-clone_value}
use bullmq_durable.Errors.{SerializedError}
use bullmq_durable.Types.{InstanceState, InstanceStatus, running, is_compensating}
use bullmq_durable.Store.{clone_instance}
use bullmq_durable.Store.Instances.{
  InstancePatch, InstanceField, begin_tick, patch_instance, clear_field, clear_fields, field_error,
  field_failed_at, field_failure_error, field_failed_step, field_compensation,
}
use bullmq_durable.Redis.{Hash}
use bullmq_durable.Redis.Fields.{
  no_fields, encode_instance_fields, encode_value, hset, parse_instance, all_fields, partial_of,
  parse_instance-encode_instance_fields,
}
use bullmq_durable.Redis.Lifecycle.{tick_hash, tick_status, hdel, hdel_all}
use bullmq_durable.Redis.Checkpoints.{seq_hash, hash_seq}
use bullmq_durable.Redis.Matches.{Represents}

pub Represents-all_fields :
    (i : InstanceState) → i.resume_seq ≡ none → Represents (encode_instance_fields (all_fields i)) i
unfolding encode_instance_fields all_fields
Represents-all_fields i h = record {
  parsed = parse_instance-encode_instance_fields i h;
  has_status = refl;
}

tick_status-is_compensating :
    (st : InstanceStatus)
    → tick_status (some st) ≡ some (if is_compensating st then st else running)
tick_status-is_compensating st = elim (Bool-cases (is_compensating st)) [
  | inl e ↦ rw (e) refl
  | inr e ↦ rw (e) refl
]

pub Represents-tick_hash :
    (now : ℕ) (h : Hash) (i : InstanceState)
    → Represents h i
    → Represents (tick_hash now h) (begin_tick now i)
unfolding tick_hash begin_tick parse_instance clone_instance
Represents-tick_hash now h i e =
    let new = ap tick_status e.has_status ∙ tick_status-is_compensating i.status in
    record {
      parsed = λ k. record (e.parsed k) {
        run_count = (e.parsed k).run_count + 1;
        status = or_else (new k) running;
        updated_at = now;
      };
      has_status = new;
    }

or_else-coalesce {ℓ} :
    {A : Type ℓ} (o h : Option A) (d a : A) → h ≡ some a → coalesce o h ≡ some (or_else o a)
or_else-coalesce none h d a e = e
or_else-coalesce (some x) h d a e = refl

pub Represents-partial_of :
    (p : InstancePatch) (now : ℕ) (h : Hash) (i : InstanceState)
    → Represents h i
    → Represents
        (hset (encode_instance_fields (record (partial_of p) { updated_at = some now })) h)
        (patch_instance p now i)
unfolding hset encode_instance_fields encode_value partial_of patch_instance parse_instance
    clone_instance
Represents-partial_of p now h i e =
    let new = or_else-coalesce p.status h.status running i.status e.has_status in
    record {
      parsed = λ k. record (e.parsed k) {
        status = or_else (new k) running;
        failure_error = coalesce p.failure_error (e.parsed k).failure_error;
        failed_step = coalesce p.failed_step (e.parsed k).failed_step;
        compensation = coalesce p.compensation (e.parsed k).compensation;
        updated_at = now;
      };
      has_status = new;
    }

coalesce-output :
    (output old : Value) (h : Option Value)
    → or_else h undefined ≡ clone_value old
    → (output ≢ undefined) ⊎ (old ≡ undefined)
    → or_else (coalesce (encode_value output) h) undefined ≡ clone_value (clone_value output)
unfolding encode_value clone_value
coalesce-output undefined old h e (inl ne) = absurd (ne refl)
coalesce-output undefined old h e (inr void) = e ∙ ap clone_value void
coalesce-output v old h e void = sym (clone_value-clone_value v)

pub Represents-completed :
    (st : InstanceStatus) (output : Value) (now : ℕ) (h : Hash) (i : InstanceState)
    → Represents h i
    → (output ≢ undefined) ⊎ (i.output ≡ undefined)
    → Represents
        (hset
          (encode_instance_fields (record no_fields {
            status = some st;
            output = output;
            completed_at = some now;
            updated_at = some now;
          }))
          h)
        (record i {
          status = st;
          output = clone_value output;
          completed_at = some now;
          updated_at = now;
        })
unfolding hset encode_instance_fields encode_value parse_instance clone_instance
Represents-completed st output now h i e void = record {
  parsed = λ k. record (e.parsed k) {
    status = st;
    output = coalesce-output output i.output h.output (ap (λ x. x.output) e.parsed) void k;
    completed_at = some now;
    updated_at = now;
  };
  has_status = refl;
}

pub Represents-failed :
    (st : InstanceStatus) (err : SerializedError) (now : ℕ) (h : Hash) (i : InstanceState)
    → Represents h i
    → Represents
        (hset
          (encode_instance_fields (record no_fields {
            status = some st;
            error = some err;
            failed_at = some now;
            updated_at = some now;
          }))
          h)
        (record i { status = st; error = some err; failed_at = some now; updated_at = now })
unfolding hset encode_instance_fields encode_value parse_instance clone_instance
Represents-failed st err now h i e = record {
  parsed = λ k. record (e.parsed k) {
    status = st;
    error = some err;
    failed_at = some now;
    updated_at = now;
  };
  has_status = refl;
}

pub Represents-cancelled :
    (st : InstanceStatus) (now : ℕ) (h : Hash) (i : InstanceState)
    → Represents h i
    → Represents
        (hset
          (encode_instance_fields (record no_fields { status = some st; updated_at = some now }))
          h)
        (record i { status = st; updated_at = now })
unfolding hset encode_instance_fields encode_value parse_instance clone_instance
Represents-cancelled st now h i e = record {
  parsed = λ k. record (e.parsed k) { status = st; updated_at = now };
  has_status = refl;
}

Represents-hdel :
    (f : InstanceField) (h : Hash) (i : InstanceState)
    → Represents h i
    → Represents (hdel f h) (clear_field f i)
unfolding parse_instance clone_instance
Represents-hdel field_error h i e = record {
  parsed = λ k. record (e.parsed k) { error = none };
  has_status = e.has_status;
}
Represents-hdel field_failed_at h i e = record {
  parsed = λ k. record (e.parsed k) { failed_at = none };
  has_status = e.has_status;
}
Represents-hdel field_failure_error h i e = record {
  parsed = λ k. record (e.parsed k) { failure_error = none };
  has_status = e.has_status;
}
Represents-hdel field_failed_step h i e = record {
  parsed = λ k. record (e.parsed k) { failed_step = none };
  has_status = e.has_status;
}
Represents-hdel field_compensation h i e = record {
  parsed = λ k. record (e.parsed k) { compensation = none };
  has_status = e.has_status;
}

pub Represents-hdel_all :
    (fs : List InstanceField) (h : Hash) (i : InstanceState)
    → Represents h i
    → Represents (hdel_all fs h) (clear_fields fs i)
Represents-hdel_all [] h i e = e
Represents-hdel_all (f ∷ fs) h i e =
    Represents-hdel_all fs (hdel f h) (clear_field f i) (Represents-hdel f h i e)

pub Represents-seq_hash :
    (now : ℕ) (h : Hash) (i : InstanceState)
    → Represents h i
    → Represents
        (seq_hash now h)
        (record i { step_seq = some (or_else i.step_seq 0 + 1); updated_at = now })
unfolding seq_hash hash_seq parse_instance clone_instance
Represents-seq_hash now h i e = record {
  parsed = λ k. record (e.parsed k) {
    step_seq = some (or_else (e.parsed k).step_seq 0 + 1);
    updated_at = now;
  };
  has_status = e.has_status;
}
