-- ===== src/Tests/Policy.antt =====
-- The theorems on retry policies, clones and durations at concrete inputs.
use bullmq_durable.Value.Clone.{IsJson, AreJson, HoldsJson, clone_value-IsJson}
use bullmq_durable.Retry.Bounds.{compute_backoff_mono, compute_backoff_bounds}
use bullmq_durable.Retry.{
  negative, fixed, ResolvedRetry, RetryOptions, cap_of, compute_backoff, exponential, full_delay,
}
use bullmq_durable.Result.{ok}
use bullmq_durable.Duration.Parse.{parse_duration-ok}
use bullmq_durable.Duration.{DurationInput, Fraction, is_duration_like, parse_duration}
use bullmq_durable.Base.{suc, inl, ◌*◌, ◌/◌, ◌≤◌, arith, ℕ, refl, some, none, true, ◌≡◌, ◌≢◌}
use bullmq_durable.Value.{nil, cons, arr, undefined, clone_value, num, Value}

abbrev half : Fraction
half = record { num = 1; den = 1 }

abbrev doubling : ResolvedRetry
doubling = record {
  attempts = 5;
  type = exponential;
  delay_ms = 1000;
  jitter = half;
  max_delay_ms = some 30000;
}

compute_backoff_bounds_example :
    ((c : ℕ) → cap_of exponential (some 30000) ≡ some c → compute_backoff doubling 3 half ≤ c)
    × (compute_backoff doubling 3 half ≤ full_delay doubling 3)
    × (full_delay doubling 3 * 1 / 2 ≤ suc (compute_backoff doubling 3 half))
unfolding full_delay
compute_backoff_bounds_example =
    compute_backoff_bounds doubling 3 half (omega arith) (omega arith) (inl (omega arith))
      (omega arith)

abbrev steady : ResolvedRetry
steady = record doubling { jitter = record { num = 0; den = 0 } }

compute_backoff_mono_example : compute_backoff steady 2 half ≤ compute_backoff steady 9 half
compute_backoff_mono_example =
    compute_backoff_mono steady 2 9 half half refl (omega arith) (inl (omega arith))

abbrev policy : RetryOptions
policy = record { attempts = some (negative half); backoff = none; delay = none; max_delay = none }

abbrev resolved : ResolvedRetry
resolved = record {
  attempts = 1;
  type = fixed;
  delay_ms = 0;
  jitter = record { num = 0; den = 0 };
  max_delay_ms = none;
}

abbrev hole : Value
hole = arr (cons undefined (cons (num 1) nil))

hole_ne : hole ≢ undefined
hole_ne e = cc

clone_value-IsJson_example :
    IsJson (clone_value hole) × (clone_value (arr (cons (num 1) nil)) ≡ arr (cons (num 1) nil))
unfolding IsJson AreJson HoldsJson
clone_value-IsJson_example = clone_value-IsJson hole (arr (cons (num 1) nil)) hole_ne (tt, tt)

two_seconds : parse_duration (DurationInput.text "2s") ≡ ok 2000
unfolding parse_duration
two_seconds = refl

parse_duration-ok_example : is_duration_like (DurationInput.text "2s") ≡ true
parse_duration-ok_example = parse_duration-ok (DurationInput.text "2s") 2000 two_seconds
