-- ===== src/Duration.antt =====
-- utils/duration.ts. Numbers are exact fractions: a string's decimal value is not rounded to a
-- double before it is scaled. A number that is negative or not finite is known by its text.
pub mod Parse
use Prim.Native.Char.{code}
use bullmq_durable.Base.{
  ℕ, zero, suc, ◌+◌, ◌-◌, ◌*◌, ◌/◌, ◌^◌, String, ◌+++◌, Bool, true, false, ◌&&◌, ◌||◌, Option, none,
  some, List, [], ◌∷◌, leb, ltb, ◌==◌, if◌then◌else◌, or_else, is_some, reverse, length,
}
use bullmq_durable.Errors.{Thrown, error, plain}
use bullmq_durable.Result.{Result, ok, throws}

-- `num / (suc den)`.
pub record Fraction : Type 0 where
  pub num : ℕ
  pub den : ℕ

pub data DurationInput : Type 0 where
  number : Fraction → DurationInput
  invalid_number : String → DurationInput
  text : String → DurationInput

pub data DurationUnit : Type 0 where
  milliseconds seconds minutes hours days weeks : DurationUnit

-- `UNIT_TO_MS`.
abbrev pub unit_to_ms : DurationUnit → ℕ
unit_to_ms milliseconds = 1
unit_to_ms seconds = 1000
unit_to_ms minutes = 60000
unit_to_ms hours = 3600000
unit_to_ms days = 86400000
unit_to_ms weeks = 604800000

-- `Math.round(n / (suc d))`.
abbrev pub round : ℕ → ℕ → ℕ
round n d = (2 * n + suc d) / (2 * suc d)

-- The code points of a text.
abbrev pub codes : String → List ℕ
codes String.[] = []
codes (String.◌∷◌ c rest) = code c ∷ codes rest

-- `\s`, and what `trim` removes.
unfoldable pub is_space : ℕ → Bool
is_space c =
    (leb 9 c && leb c 13)
    || (c == 32)
    || (c == 160)
    || (c == 5760)
    || (leb 8192 c && leb c 8202)
    || (c == 8232)
    || (c == 8233)
    || (c == 8239)
    || (c == 8287)
    || (c == 12288)
    || (c == 65279)

unfoldable pub skip_spaces : List ℕ → List ℕ
unfolding is_space
skip_spaces [] = []
skip_spaces (c ∷ cs) = let rest = skip_spaces cs in if is_space c then rest else c ∷ cs

unfoldable pub trim : List ℕ → List ℕ
unfolding skip_spaces
trim cs = reverse (skip_spaces (reverse (skip_spaces cs)))

unfoldable pub is_digit : ℕ → Bool
is_digit c = leb b'0' c && leb c b'9'

-- The value of the digits at the front, how many they are, and what follows them.
pub record Digits : Type 0 where
  pub value : ℕ
  pub count : ℕ
  pub rest : List ℕ

unfoldable pub read_digits : ℕ → ℕ → List ℕ → Digits
unfolding is_digit
read_digits acc n [] = record { value = acc; count = n; rest = [] }
read_digits acc n (c ∷ cs) =
    let more = read_digits (acc * 10 + (c - b'0')) (n + 1) cs in
    if is_digit c then more else record { value = acc; count = n; rest = c ∷ cs }

unfoldable pub to_lower : ℕ → ℕ
to_lower c = if leb b'A' c && leb c b'Z' then c + 32 else c

-- `(ms|s|m|h|d|w)?$`, with the flag `i`: the unit, if any (inner), if the text matches (outer).
read_letter : ℕ → Option (Option DurationUnit)
read_letter c =
    if c == b's'
    then some (some seconds)
    else if c == b'm'
    then some (some minutes)
    else if c == b'h'
    then some (some hours)
    else if c == b'd'
    then some (some days)
    else if c == b'w'
    then some (some weeks)
    else none

unfoldable pub read_unit : List ℕ → Option (Option DurationUnit)
unfolding read_letter to_lower
read_unit [] = some none
read_unit (c ∷ []) = read_letter (to_lower c)
read_unit (c ∷ e ∷ []) =
    if (to_lower c == b'm') && (to_lower e == b's') then some (some milliseconds) else none
read_unit (c ∷ e ∷ g ∷ rest) = none

-- A match of `DURATION_PATTERN`: the number as `digits / 10 ^ places`, and the unit.
pub record Match : Type 0 where
  pub digits : ℕ
  pub places : ℕ
  pub unit : Option DurationUnit

end_match : ℕ → ℕ → Option (Option DurationUnit) → Option Match
end_match digits places none = none
end_match digits places (some unit) =
    some (record { digits = digits; places = places; unit = unit })

match_fraction : ℕ → Digits → Option Match
unfolding end_match skip_spaces read_unit
match_fraction whole f =
    if f.count == 0 then none else end_match f.value f.count (read_unit (skip_spaces f.rest))

match_rest : Digits → List ℕ → Option Match
unfolding match_fraction read_digits end_match skip_spaces read_unit
match_rest whole [] = end_match whole.value 0 (some none)
match_rest whole (c ∷ cs) =
    if c == b'.'
    then match_fraction whole.value (read_digits whole.value 0 cs)
    else end_match whole.value 0 (read_unit (skip_spaces (c ∷ cs)))

-- `DURATION_PATTERN.exec(input.trim())`.
unfoldable pub match_duration : String → Option Match
unfolding match_rest trim
match_duration input =
    let whole = read_digits 0 0 (trim (codes input)) in
    if whole.count == 0 then none else match_rest whole whole.rest

type_error : String → Thrown
type_error message = error (record {
  class = plain;
  name = "TypeError";
  message = message;
  code = none;
  frozen = false;
  marked = false;
})

-- From here on a double is `Infinity`.
infinite : ℕ
infinite = 2 ^ 1024 - 2 ^ 970

ms_of_match : Match → ℕ
ms_of_match g = round (g.digits * unit_to_ms (or_else g.unit milliseconds)) (10 ^ g.places - 1)

unfoldable pub duration_of_match : String → Option Match → Result ℕ
unfolding type_error ms_of_match infinite
duration_of_match input none = throws (
    type_error (
      "Invalid duration string: \""
      +++ (input +++ "\". Expected a number followed by a unit (ms, s, m, h, d, w).")))
duration_of_match input (some g) =
    if leb infinite (ms_of_match g)
    then throws
        (type_error ("Invalid duration string: \"" +++ (input +++ "\". Value is too large.")))
    else ok (ms_of_match g)

-- `parseDuration`.
unfoldable pub parse_duration : DurationInput → Result ℕ
unfolding type_error duration_of_match match_duration
parse_duration (number f) = ok (round f.num f.den)
parse_duration (invalid_number shown) = throws (
    type_error
      ("Invalid duration: " +++ (shown +++ ". Expected a non-negative number of milliseconds.")))
parse_duration (text input) = duration_of_match input (match_duration input)

-- `isDurationLike`, of a number or a string.
unfoldable pub is_duration_like : DurationInput → Bool
unfolding match_duration
is_duration_like (number f) = true
is_duration_like (invalid_number shown) = false
is_duration_like (text input) = is_some (match_duration input)

has_unit : Option Match → Bool
has_unit none = false
has_unit (some g) = is_some g.unit

-- `hasExplicitDurationUnit`.
unfoldable pub has_explicit_duration_unit : DurationInput → Bool
unfolding match_duration has_unit
has_explicit_duration_unit (number f) = false
has_explicit_duration_unit (invalid_number shown) = false
has_explicit_duration_unit (text input) = has_unit (match_duration input)
