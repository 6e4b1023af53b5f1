-- ===== src/Retry/Bounds.antt =====
-- The bounds of a backoff delay.
use native.Mathlib.Nat.{
  mul-le-mul_right, div-le_of_le-mul, mul-div-mul_left, div-mul-le_self, le-div_iff_mul-le,
  le_trans, pow-le-pow_right, mul-le-mul_left,
}
use bullmq_durable.Base.{ℕ, suc, ◌+◌, ◌-◌, ◌*◌, ◌/◌, ◌≤◌, ◌≡◌, ◌⊎◌, Option, none, some, arith}
use bullmq_durable.Duration.{Fraction}
use bullmq_durable.Retry.{
  whole, ResolvedRetry, BackoffType, fixed, exponential, compute_backoff, full_delay, base_delay,
  cap_of, capped, jittered,
}

-- `n` is below one: what `Math.random()` gives.
abbrev pub BelowOne : Fraction → Type 0
BelowOne f = f.num ≤ f.den

-- At most one: what `resolveRetry` makes of a jitter.
abbrev pub AtMostOne : Fraction → Type 0
AtMostOne f = f.num ≤ suc f.den

-- The numerator, with `y` for the part of the denominator that the jitter leaves.
spread : (b n y r d : ℕ) → r ≤ d → r * (b * n) + d * (b * y) ≤ d * (n + y) * b
spread b n y r d h = omega (arith, mul-le-mul_right (b * n) h)

jittered-le : (base : ℕ) (j r : Fraction) → AtMostOne j → BelowOne r → jittered base j r ≤ base
unfolding jittered
jittered-le base j r hj hr =
    let y : ℕ = suc j.den - j.num in
    let whole : j.num + y ≡ suc j.den = omega arith in
    div-le_of_le-mul (suc r.den * suc j.den)
      (rw whole at (spread base j.num y r.num (suc r.den) (omega arith)))

div-le-div : (a b k : ℕ) → a ≤ b → a / suc k ≤ b / suc k
div-le-div a b k h = (le-div_iff_mul-le (omega arith)).1 (le_trans (div-mul-le_self a (suc k)) h)

jittered-ge :
    (base : ℕ) (j r : Fraction) → base * (suc j.den - j.num) / suc j.den ≤ jittered base j r
unfolding jittered
jittered-ge base j r =
    rw (← mul-div-mul_left {m = suc r.den} (base * (suc j.den - j.num)) (suc j.den) (omega arith)) (
      (le-div_iff_mul-le (grind arith)).1
        (le_trans (div-mul-le_self _ (suc r.den * suc j.den)) (omega arith)))

capped-le : (c : ℕ) (o : Option ℕ) (base : ℕ) → o ≡ some c → capped o base ≤ c
unfolding capped
capped-le c none base e = absurd (cc)
capped-le c (some d) base e = ground arith

full_delay-le :
    (retry : ResolvedRetry) (k c : ℕ)
    → cap_of retry.type retry.max_delay_ms ≡ some c
    → full_delay retry k ≤ c
unfolding full_delay
full_delay-le retry k c e = capped-le c _ _ e

compute_backoff-le :
    (retry : ResolvedRetry) (k : ℕ) (random : Fraction)
    → AtMostOne retry.jitter
    → BelowOne random
    → compute_backoff retry k random ≤ full_delay retry k
unfolding compute_backoff
compute_backoff-le retry k random hj hr =
    ground (arith, jittered-le (full_delay retry k) retry.jitter random hj hr)

share-le : (b n d : ℕ) → b * (suc d - n) / suc d ≤ b
share-le b n d =
    div-le_of_le-mul (suc d)
      (omega (arith, mul-le-mul_left {m = suc d - n} {n = suc d} b (omega arith)))

compute_backoff-ge :
    (retry : ResolvedRetry) (k : ℕ) (random : Fraction)
    → full_delay retry k * (suc retry.jitter.den - retry.jitter.num) / suc retry.jitter.den
      ≤ compute_backoff retry k random
unfolding compute_backoff
compute_backoff-ge retry k random = ground (
  arith,
  jittered-ge (full_delay retry k) retry.jitter random,
  share-le (full_delay retry k) retry.jitter.num retry.jitter.den,
)

-- The inputs on which the doubles of the source give a number: 0 * 2 ** 1024 is `NaN`.
abbrev pub Finite : ResolvedRetry → ℕ → Type 0
Finite retry k = (1 ≤ retry.delay_ms) ⊎ (k ≤ 1024)

-- The delay before the next attempt is at most the cap (`maxDelay`, or an hour for an exponential
-- backoff with none), at most the capped delay without jitter, and at most 1 ms below the share of
-- that delay which the jitter leaves alone: the jitter being at most one and the draw below one, the
-- capped delay at most 2 ^ 50 ms, and the delay nonzero or the attempt at most the 1024th.
pub compute_backoff_bounds :
    (retry : ResolvedRetry) (k : ℕ) (random : Fraction)
    → AtMostOne retry.jitter
    → BelowOne random
    → Finite retry k
    → full_delay retry k ≤ 1125899906842624
    → ((c : ℕ) → cap_of retry.type retry.max_delay_ms ≡ some c → compute_backoff retry k random ≤ c)
      × (compute_backoff retry k random ≤ full_delay retry k)
      × (full_delay retry k * (suc retry.jitter.den - retry.jitter.num) / suc retry.jitter.den
          ≤ suc (compute_backoff retry k random))
compute_backoff_bounds retry k random hj hr known small = (
  λ c e. le_trans (compute_backoff-le retry k random hj hr) (full_delay-le retry k c e),
  compute_backoff-le retry k random hj hr,
  le_trans (compute_backoff-ge retry k random) (omega arith),
)

base_delay_mono : (t : BackoffType) (d k l : ℕ) → k ≤ l → base_delay t d k ≤ base_delay t d l
unfolding base_delay
base_delay_mono fixed d k l h = omega arith
base_delay_mono exponential d k l h =
    mul-le-mul_left d (pow-le-pow_right {n = 2} (omega arith) {i = k - 1} {j = l - 1} (omega arith))

capped_mono : (o : Option ℕ) (a b : ℕ) → a ≤ b → capped o a ≤ capped o b
unfolding capped
capped_mono none a b h = h
capped_mono (some c) a b h = omega arith

-- Without jitter the delay never falls from one failed attempt to a later one, the delay being
-- nonzero or the later attempt at most the 1024th.
pub compute_backoff_mono :
    (retry : ResolvedRetry) (k l : ℕ) (random random' : Fraction)
    → retry.jitter.num ≡ 0
    → k ≤ l
    → Finite retry l
    → compute_backoff retry k random ≤ compute_backoff retry l random'
unfolding compute_backoff full_delay
compute_backoff_mono retry k l random random' e h known =
    rw e (capped_mono _ _ _ (base_delay_mono retry.type retry.delay_ms k l h))
