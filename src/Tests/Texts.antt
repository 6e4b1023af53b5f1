-- ===== src/Tests/Texts.antt =====
-- An instance that is written as texts and read again.
use bullmq_durable.Base.{ℕ, String, ◌=s=◌, Option, none, some, ◌≡◌, refl, if◌then◌else◌}
use bullmq_durable.Value.{Value, num, json, clone_value}
use bullmq_durable.Errors.{decimal}
use bullmq_durable.Types.{InstanceState}
use bullmq_durable.Store.{clone_instance}
use bullmq_durable.Store.Instances.{fresh_instance}
use bullmq_durable.Redis.Fields.{all_fields, parse_instance}
use bullmq_durable.Redis.Texts.{
  Texts, Readable, encode_texts, read_hash, parse_instance-encode_texts,
}
use bullmq_durable.Tests.Stores.{first_input}

abbrev digit : String → Option ℕ
digit s =
    if s =s= "0"
    then some 0
    else if s =s= "1"
    then some 1
    else if s =s= "2"
    then some 2
    else if s =s= "3"
    then some 3
    else none

abbrev number_value : Option ℕ → Option Value
number_value none = none
number_value (some n) = some (num n)

abbrev print_value : Value → String
print_value (num n) = decimal n
print_value v = "null"

-- JSON and `parseInt` on digits.
abbrev digits : Texts
digits = record {
  number = record { print = decimal; read = digit };
  value = record { print = print_value; read = λ s. number_value (digit s) };
  error = record { print = λ e. ""; read = λ s. none };
  report = record { print = λ r. ""; read = λ s. none };
}

abbrev order : InstanceState
order = fresh_instance first_input 2

order-Readable : Readable digits (all_fields order)
unfolding fresh_instance all_fields decimal json clone_value
order-Readable = record {
  run_count = refl;
  step_seq = tt;
  created_at = refl;
  updated_at = refl;
  completed_at = tt;
  failed_at = tt;
  input = refl;
  output = tt;
  error = tt;
  failure_error = tt;
  compensation = tt;
}

parse_instance-encode_texts_example :
    parse_instance (read_hash digits (encode_texts digits (all_fields order)))
    ≡ clone_instance order
unfolding fresh_instance
parse_instance-encode_texts_example = parse_instance-encode_texts digits order order-Readable refl
