-- ===== src/Retry.antt =====
-- utils/retry.ts. A policy is given as a user writes it; infinite numbers are left out. Numbers are
-- exact where the source has doubles: a jittered delay may differ by the rounding, and
-- `0 * 2 ** 1024`, which is `NaN`, is 0.
pub mod Bounds
pub mod Ends
use bullmq_durable.Base.{
  ℕ, suc, ◌+◌, ◌-◌, ◌*◌, ◌/◌, ◌^◌, Bool, true, false, Option, none, some, ltb, if◌then◌else◌,
  or_else, coalesce, max, min,
}
use bullmq_durable.Result.{Result, ok, throws, ◌>>=◌}
use bullmq_durable.Duration.{DurationInput, Fraction, parse_duration}

pub data BackoffType : Type 0 where
  fixed exponential : BackoffType

-- A number that a policy is given.
pub data Number : Type 0 where
  nan : Number
  negative finite : Fraction → Number

abbrev pub whole : ℕ → Number
whole n = finite (record { num = n; den = 0 })

-- `StepBackoff`: a number or a duration text, a bare type, or the object form.
pub data StepBackoff : Type 0 where
  delay_only : DurationInput → StepBackoff
  type_only : BackoffType → StepBackoff
  options :
      Option BackoffType → Option DurationInput → Option Number → Option DurationInput → StepBackoff

pub record RetryOptions : Type 0 where
  pub attempts : Option Number
  pub backoff : Option StepBackoff
  pub delay : Option DurationInput
  pub max_delay : Option DurationInput

pub record ResolvedRetry : Type 0 where
  pub attempts : ℕ
  pub type : BackoffType
  pub delay_ms : ℕ
  pub jitter : Fraction
  pub max_delay_ms : Option ℕ

abbrev pub default_max_backoff_ms : ℕ
default_max_backoff_ms = 3600000

pub record NormalizedBackoff : Type 0 where
  pub type : Option BackoffType
  pub delay_ms : Option ℕ
  pub jitter : Option Number
  pub max_delay_ms : Option ℕ

-- `d !== undefined ? parseDuration(d) : undefined`.
unfoldable pub parse_optional : Option DurationInput → Result (Option ℕ)
parse_optional none = ok none
parse_optional (some d) = do n ← parse_duration d; ok (some n)

-- `normalizeBackoff`.
unfoldable pub normalize_backoff : Option StepBackoff → Result NormalizedBackoff
unfolding parse_optional
normalize_backoff none =
    ok (record { type = none; delay_ms = none; jitter = none; max_delay_ms = none })
normalize_backoff (some (delay_only d)) = do
  n ← parse_duration d
  ok (record { type = some fixed; delay_ms = some n; jitter = none; max_delay_ms = none })
normalize_backoff (some (type_only t)) =
    ok (record { type = some t; delay_ms = none; jitter = none; max_delay_ms = none })
normalize_backoff (some (options type delay jitter max_delay)) = do
  d ← parse_optional delay
  m ← parse_optional max_delay
  ok (record { type = type; delay_ms = d; jitter = jitter; max_delay_ms = m })

abbrev pub attempts_of : Option RetryOptions → Option Number
attempts_of none = none
attempts_of (some o) = o.attempts

abbrev pub backoff_of : Option RetryOptions → Option StepBackoff
backoff_of none = none
backoff_of (some o) = o.backoff

abbrev pub delay_of : Option RetryOptions → Option DurationInput
delay_of none = none
delay_of (some o) = o.delay

abbrev pub max_delay_of : Option RetryOptions → Option DurationInput
max_delay_of none = none
max_delay_of (some o) = o.max_delay

-- `a ?? f()`: the second source is read, and may throw, only where the first is absent.
abbrev pub or_parse : Option ℕ → Option DurationInput → Result (Option ℕ)
or_parse (some n) d = ok (some n)
or_parse none d = parse_optional d

abbrev pub or_chain : Option ℕ → Result (Option ℕ) → Result (Option ℕ)
or_chain (some n) r = ok (some n)
or_chain none r = r

-- `s ?? legacy(step) ?? f ?? legacy(fallback)`.
unfoldable pub first_duration :
    Option ℕ → Option DurationInput → Option ℕ → Option DurationInput → Result (Option ℕ)
unfolding parse_optional
first_duration s step f fallback = do own ← or_parse s step; or_chain own (or_parse f fallback)

-- `Math.min(1, Math.max(0, jitter))`. `NaN` stays, and is no jitter: `NaN > 0` is false.
unfoldable pub clamp_jitter : Number → Fraction
clamp_jitter nan = record { num = 0; den = 0 }
clamp_jitter (negative j) = record { num = 0; den = 0 }
clamp_jitter (finite j) = if ltb (suc j.den) j.num then record { num = 1; den = 0 } else j

-- `Math.max(1, Math.floor(attempts))`. `NaN` stays, and is a budget of 0: `attempts < NaN` is false.
unfoldable pub floor_attempts : Number → ℕ
floor_attempts nan = 0
floor_attempts (negative n) = 1
floor_attempts (finite n) = max 1 (n.num / suc n.den)

-- The policy that `resolveRetry` returns.
unfoldable pub merge_retry :
    Option RetryOptions
    → Option RetryOptions
    → NormalizedBackoff
    → NormalizedBackoff
    → Option ℕ
    → Option ℕ
    → ResolvedRetry
unfolding clamp_jitter floor_attempts
merge_retry step fallback s f delay max_delay = record {
  attempts =
      floor_attempts (or_else (coalesce (attempts_of step) (attempts_of fallback)) (whole 1));
  type = or_else (coalesce s.type f.type) fixed;
  delay_ms = or_else delay 0;
  jitter = clamp_jitter (or_else (coalesce s.jitter f.jitter) (whole 0));
  max_delay_ms = max_delay;
}

-- `resolveRetry`.
unfoldable pub resolve_retry : Option RetryOptions → Option RetryOptions → Result ResolvedRetry
resolve_retry step fallback = do
  s ← normalize_backoff (backoff_of step)
  f ← normalize_backoff (backoff_of fallback)
  delay ← first_duration s.delay_ms (delay_of step) f.delay_ms (delay_of fallback)
  max_delay ←
      first_duration s.max_delay_ms (max_delay_of step) f.max_delay_ms (max_delay_of fallback)
  ok (merge_retry step fallback s f delay max_delay)

-- The delay before the cap.
unfoldable pub base_delay : BackoffType → ℕ → ℕ → ℕ
base_delay fixed delay_ms failed_attempt = delay_ms
base_delay exponential delay_ms failed_attempt = delay_ms * 2 ^ (failed_attempt - 1)

unfoldable pub cap_of : BackoffType → Option ℕ → Option ℕ
cap_of fixed max_delay_ms = max_delay_ms
cap_of exponential max_delay_ms = some (or_else max_delay_ms default_max_backoff_ms)

unfoldable pub capped : Option ℕ → ℕ → ℕ
capped none base = base
capped (some cap) base = min base cap

-- `Math.floor(Math.random() * base * jitter + base * (1 - jitter))`, over a common denominator.
unfoldable pub jittered : ℕ → Fraction → Fraction → ℕ
jittered base jitter random =
    (random.num * (base * jitter.num) + suc random.den * (base * (suc jitter.den - jitter.num)))
    / (suc random.den * suc jitter.den)

-- The delay before jitter, capped.
unfoldable pub full_delay : ResolvedRetry → ℕ → ℕ
unfolding base_delay cap_of capped
full_delay retry failed_attempt =
    capped (cap_of retry.type retry.max_delay_ms)
      (base_delay retry.type retry.delay_ms failed_attempt)

-- `computeBackoff`; `random` is what `Math.random()` gives.
unfoldable pub compute_backoff : ResolvedRetry → ℕ → Fraction → ℕ
compute_backoff retry failed_attempt random =
    let base = full_delay retry failed_attempt in
    if ltb 0 retry.jitter.num then jittered base retry.jitter random else base
