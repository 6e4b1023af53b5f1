-- ===== src/Errors/Marking.antt =====
-- What errors keep when they are stored, rebuilt and marked.
use bullmq_durable.Base.{◌≡◌, refl, true}
use bullmq_durable.Errors.{
  SerializedError, Thrown, error, text, other, serialize_error, deserialize_error,
  mark_step_failure, is_step_failure, class_of,
}

pub serialize_error-deserialize_error :
    (s : SerializedError) → serialize_error (deserialize_error s) ≡ s
unfolding serialize_error deserialize_error
serialize_error-deserialize_error s = refl

pub is_step_failure-deserialize_error :
    (s : SerializedError) → is_step_failure (mark_step_failure (deserialize_error s)) ≡ true
unfolding is_step_failure mark_step_failure deserialize_error
is_step_failure-deserialize_error s = refl

-- Marking changes neither the class nor what is stored.
pub serialize_error-mark_step_failure :
    (e : Thrown) → serialize_error (mark_step_failure e) ≡ serialize_error e
unfolding serialize_error mark_step_failure
serialize_error-mark_step_failure (error e) = refl
serialize_error-mark_step_failure (text s) = refl
serialize_error-mark_step_failure (other s o m) = refl

pub class_of-mark_step_failure : (e : Thrown) → class_of (mark_step_failure e) ≡ class_of e
unfolding mark_step_failure
class_of-mark_step_failure (error e) = refl
class_of-mark_step_failure (text s) = refl
class_of-mark_step_failure (other s o m) = refl
