-- ===== src/Duration/Parse.antt =====
-- What `parseDuration` and its companions promise of one another.
use bullmq_durable.Base.{◌≡◌, refl, ℕ, true, false, arith, String, Option, is_some, some, none}
use bullmq_durable.Result.{ok}
use bullmq_durable.Duration.{
  DurationInput, number, invalid_number, text, parse_duration, is_duration_like,
  has_explicit_duration_unit, match_duration, duration_of_match, Match, has_unit,
}

duration_of_match-ok :
    (input : String) (g : Option Match) (n : ℕ)
    → duration_of_match input g ≡ ok n
    → is_some g ≡ true
unfolding duration_of_match
duration_of_match-ok input none n e = cc
duration_of_match-ok input (some g) n e = ground arith

-- `parseDuration` yields a number only for an input that `isDurationLike` accepts.
pub parse_duration-ok :
    (i : DurationInput) (n : ℕ) → parse_duration i ≡ ok n → is_duration_like i ≡ true
unfolding parse_duration is_duration_like
parse_duration-ok (number f) n e = refl
parse_duration-ok (invalid_number shown) n e = cc
parse_duration-ok (text input) n e = duration_of_match-ok input (match_duration input) n e

has_unit-is_some : (g : Option Match) → has_unit g ≡ true → is_some g ≡ true
unfolding has_unit
has_unit-is_some none e = cc
has_unit-is_some (some g) e = refl

-- A duration with an explicit unit looks like a duration.
pub has_explicit_duration_unit-is_duration_like :
    (i : DurationInput) → has_explicit_duration_unit i ≡ true → is_duration_like i ≡ true
unfolding has_explicit_duration_unit is_duration_like
has_explicit_duration_unit-is_duration_like (number f) e = refl
has_explicit_duration_unit-is_duration_like (invalid_number shown) e = cc
has_explicit_duration_unit-is_duration_like (text input) e =
    has_unit-is_some (match_duration input) e

parse_texts :
    (parse_duration (text " 1.5S ") ≡ ok 1500)
    × (parse_duration (text "30") ≡ ok 30)
    × (parse_duration (text "2 h") ≡ ok 7200000)
    × (has_explicit_duration_unit (text "30") ≡ false)
    × (is_duration_like (text "5.") ≡ false)
unfolding parse_duration has_explicit_duration_unit is_duration_like
parse_texts = (refl, refl, refl, refl, refl)
