-- ===== src/Retry/Ends.antt =====
-- `resolveRetry` always ends: in a policy, or in the error of a duration that does not parse.
use bullmq_durable.Base.{ℕ, String, Option, none, some, arith}
use bullmq_durable.Result.{Result, ok, throws, out_of_fuel, Ends, ◌>>=◌}
use bullmq_durable.Duration.{
  DurationInput, number, invalid_number, text, parse_duration, duration_of_match, match_duration,
  Match,
}
use bullmq_durable.Retry.{
  RetryOptions, StepBackoff, delay_only, type_only, options, parse_optional, normalize_backoff,
  first_duration, resolve_retry, or_parse, or_chain,
}

>>=-Ends {ℓ κ} :
    {A : Type ℓ} {B : Type κ} (m : Result A) (f : A → Result B)
    → Ends m
    → ((a : A) → Ends (f a))
    → Ends (m >>= f)
>>=-Ends (ok a) f h k = k a
>>=-Ends (throws e) f h k = tt
>>=-Ends out_of_fuel f h k = h

duration_of_match-Ends : (input : String) (g : Option Match) → Ends (duration_of_match input g)
unfolding duration_of_match
duration_of_match-Ends input none = tt
duration_of_match-Ends input (some g) = ground arith

parse_duration-Ends : (i : DurationInput) → Ends (parse_duration i)
unfolding parse_duration
parse_duration-Ends (number f) = tt
parse_duration-Ends (invalid_number s) = tt
parse_duration-Ends (text s) = duration_of_match-Ends s (match_duration s)

parse_optional-Ends : (o : Option DurationInput) → Ends (parse_optional o)
unfolding parse_optional
parse_optional-Ends none = tt
parse_optional-Ends (some d) = >>=-Ends (parse_duration d) _ (parse_duration-Ends d) (λ n. tt)

normalize_backoff-Ends : (b : Option StepBackoff) → Ends (normalize_backoff b)
unfolding normalize_backoff
normalize_backoff-Ends none = tt
normalize_backoff-Ends (some (delay_only d)) =
    >>=-Ends (parse_duration d) _ (parse_duration-Ends d) (λ n. tt)
normalize_backoff-Ends (some (type_only t)) = tt
normalize_backoff-Ends (some (options t d j m)) =
    >>=-Ends (parse_optional d) _ (parse_optional-Ends d)
      (λ n. >>=-Ends (parse_optional m) _ (parse_optional-Ends m) (λ k. tt))

or_parse-Ends : (n : Option ℕ) (d : Option DurationInput) → Ends (or_parse n d)
or_parse-Ends none d = parse_optional-Ends d
or_parse-Ends (some n) d = tt

or_chain-Ends : (n : Option ℕ) (r : Result (Option ℕ)) → Ends r → Ends (or_chain n r)
or_chain-Ends none r h = h
or_chain-Ends (some n) r h = tt

first_duration-Ends :
    (s : Option ℕ) (d : Option DurationInput) (f : Option ℕ) (e : Option DurationInput)
    → Ends (first_duration s d f e)
unfolding first_duration
first_duration-Ends s d f e =
    >>=-Ends (or_parse s d) _ (or_parse-Ends s d)
      (λ own. or_chain-Ends own (or_parse f e) (or_parse-Ends f e))

pub resolve_retry-Ends : (step fallback : Option RetryOptions) → Ends (resolve_retry step fallback)
unfolding resolve_retry
resolve_retry-Ends step fallback = >>=-Ends (normalize_backoff _) _ (normalize_backoff-Ends _) (λ s.
    >>=-Ends (normalize_backoff _) _ (normalize_backoff-Ends _) (λ f.
      >>=-Ends (first_duration _ _ _ _) _ (first_duration-Ends _ _ _ _)
        (λ d. >>=-Ends (first_duration _ _ _ _) _ (first_duration-Ends _ _ _ _) (λ m. tt))))
