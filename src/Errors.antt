-- ===== src/Errors.antt =====
-- errors.ts and the error half of utils/serialize.ts. An error object is a record with its class
-- as a tag; stack traces are left out. A thrown value that is no `Error` carries the text that
-- `safeStringify` gives it, and whether it is an object.
pub mod Marking
use bullmq_durable.Base.{
  ℕ, suc, ◌/◌, ◌%◌, ◌+◌, ◌<◌, String, ◌+++◌, Bool, true, false, ◌&&◌, ◌||◌, not, Option, none, some,
  List, ◌=s=◌, if◌then◌else◌, ltb,
}

-- `code?: string | number`.
pub data Code : Type 0 where
  code_text : String → Code
  code_num : ℕ → Code

pub record SerializedError : Type 0 where
  pub name : String
  pub message : String
  pub code : Option Code

-- The class of an error object, with the fields that only that class has.
pub data ErrorClass : Type 0 where
  plain non_retryable unrecoverable : ErrorClass
  yielded : String → ErrorClass
  retry_later : Option ℕ → String → ErrorClass
  cancelled : String → ErrorClass
  retries_exhausted : String → ℕ → SerializedError → ErrorClass
  settle_incomplete : String → ErrorClass

pub record JsError : Type 0 where
  pub class : ErrorClass
  pub name : String
  pub message : String
  pub code : Option Code
  pub frozen : Bool
  pub marked : Bool

pub data Thrown : Type 0 where
  error : JsError → Thrown
  text : String → Thrown
  other : String → Bool → Bool → Thrown

-- `${n}`: the decimal digits.
digit : ℕ → String
digit n =
    if ltb n 1
    then "0"
    else if ltb n 2
    then "1"
    else if ltb n 3
    then "2"
    else if ltb n 4
    then "3"
    else if ltb n 5
    then "4"
    else if ltb n 6
    then "5"
    else if ltb n 7
    then "6"
    else if ltb n 8
    then "7"
    else if ltb n 9
    then "8"
    else "9"

decimal_fuel : ℕ → ℕ → String → String
decimal_fuel ℕ.zero n acc = acc
decimal_fuel (suc f) n acc =
    let rest = decimal_fuel f (n / 10) (digit (n % 10) +++ acc) in
    if ltb n 10 then digit n +++ acc else rest

unfoldable pub decimal : ℕ → String
unfolding decimal_fuel digit
decimal n = decimal_fuel (suc n) n ""

new_error : ErrorClass → String → String → Thrown
new_error c name message = error (record {
  class = c;
  name = name;
  message = message;
  code = none;
  frozen = false;
  marked = false;
})

-- `new Error(message)`.
unfoldable pub plain_error : String → Thrown
unfolding new_error
plain_error message = new_error plain "Error" message

unfoldable pub yield_error : String → Thrown
unfolding new_error
yield_error reason =
    new_error (yielded reason) "DurableYieldError" ("Durable execution yielded: " +++ reason)

unfoldable pub retry_later_error : Option ℕ → String → Thrown
unfolding new_error
retry_later_error delay_ms reason = new_error (retry_later delay_ms reason) "RetryLaterError" reason

unfoldable pub non_retryable_error : String → Thrown
unfolding new_error
non_retryable_error reason = new_error non_retryable "DurableNonRetryableError" reason

unfoldable pub cancelled_error : String → Thrown
unfolding new_error
cancelled_error instance_id =
    new_error (cancelled instance_id) "DurableCancelledError"
      ("Durable instance \"" +++ (instance_id +++ "\" was cancelled"))

unfoldable pub retries_exhausted_error : String → ℕ → SerializedError → Thrown
unfolding new_error decimal
retries_exhausted_error step_key attempts cause =
    new_error (retries_exhausted step_key attempts cause) "DurableRetriesExhaustedError"
      ("Step \"" +++ (step_key +++ ("\" failed after " +++ (decimal attempts +++ " attempt(s)"))))

unfoldable pub settle_incomplete_error : String → Thrown
unfolding new_error
settle_incomplete_error step_key =
    new_error (settle_incomplete step_key) "SettleIncompleteError"
      ("settlement replay reached incomplete step \"" +++ (step_key +++ "\""))

-- The `instanceof` tests of the runtime.
abbrev pub class_of : Thrown → ErrorClass
class_of (error e) = e.class
class_of (text s) = plain
class_of (other s o m) = plain

abbrev class_yields : ErrorClass → Bool
class_yields (yielded r) = true
class_yields _ = false

abbrev class_cancels : ErrorClass → Bool
class_cancels (cancelled i) = true
class_cancels _ = false

abbrev class_non_retryable : ErrorClass → Bool
class_non_retryable non_retryable = true
class_non_retryable _ = false

abbrev class_unrecoverable : ErrorClass → Bool
class_unrecoverable unrecoverable = true
class_unrecoverable _ = false

abbrev class_settle_incomplete : ErrorClass → Bool
class_settle_incomplete (settle_incomplete k) = true
class_settle_incomplete _ = false

-- `delayMs` of a `RetryLaterError` (inner), if the error is one (outer).
abbrev class_retry_later : ErrorClass → Option (Option ℕ × String)
class_retry_later (retry_later d r) = some (d, r)
class_retry_later _ = none

abbrev pub is_yield : Thrown → Bool
is_yield e = class_yields (class_of e)

abbrev pub is_cancelled : Thrown → Bool
is_cancelled e = class_cancels (class_of e)

abbrev pub is_non_retryable : Thrown → Bool
is_non_retryable e = class_non_retryable (class_of e)

abbrev pub is_unrecoverable : Thrown → Bool
is_unrecoverable e = class_unrecoverable (class_of e)

abbrev pub is_settle_incomplete : Thrown → Bool
is_settle_incomplete e = class_settle_incomplete (class_of e)

abbrev pub as_retry_later : Thrown → Option (Option ℕ × String)
as_retry_later e = class_retry_later (class_of e)

-- `(error as Error | undefined)?.name === "UnrecoverableError"`.
unfoldable pub named_unrecoverable : Thrown → Bool
named_unrecoverable (error e) = e.name =s= "UnrecoverableError"
named_unrecoverable (text s) = false
named_unrecoverable (other s o m) = false

-- `serializeError`.
unfoldable pub serialize_error : Thrown → SerializedError
serialize_error (error e) = record { name = e.name; message = e.message; code = e.code }
serialize_error (text s) = record { name = "Error"; message = s; code = none }
serialize_error (other s o m) = record { name = "NonError"; message = s; code = none }

-- `deserializeError`: always a plain `Error`.
unfoldable pub deserialize_error : SerializedError → Thrown
deserialize_error s = error (record {
  class = plain;
  name = s.name;
  message = s.message;
  code = s.code;
  frozen = false;
  marked = false;
})

-- `markStepFailure`: a frozen error, or a primitive, stays as it is.
unfoldable pub mark_step_failure : Thrown → Thrown
mark_step_failure (error e) = error (record e { marked = e.marked || not e.frozen })
mark_step_failure (text s) = text s
mark_step_failure (other s o m) = other s o (m || o)

-- `isStepFailure`.
unfoldable pub is_step_failure : Thrown → Bool
is_step_failure (error e) = e.marked
is_step_failure (text s) = false
is_step_failure (other s o m) = o && m
