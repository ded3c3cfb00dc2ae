-- ===== src/Tests/ValidateTests.antt =====
-- Files with and without faults, where numbers with a fraction are whole ones.
use change_of_system.Base.{
  ◌≡◌, refl, true, some, [], ◌∷◌, Text, codes, lookup, insert, text_beq, text_less, to_lower, All,
  text_key,
}
use change_of_system.Base.Int.{ℤ, pos, leb_ℤ, ltb_ℤ, to_string}
use change_of_system.Config.Codec.{lines, trim, trim_start, trim_end, split_at_equals}
use change_of_system.Config.Store.{ConfigStore, stoi, digits_from, get_int, get}
use change_of_system.Validate.Keys.{known_keys}
use change_of_system.Validate.Values.{Doubles, is_valid_int, validate_value}
use change_of_system.Validate.Checks.{
  ok, parse_lines, check_intervals, check_reporting, check_webhook, check_rotation,
}
use change_of_system.Validate.Checks.Counts.{Counted}
use change_of_system.Validate.Validator.{
  validate, semantic_checks, check_values, check_disk_space, check_system_load,
}
use change_of_system.Validate.Validator.Counts.{
  IsWellFormed, parsed, validate-Counted, validate-IsWellFormed,
}

abbrev whole_numbers : Doubles
whole_numbers = record {
  Double = ℤ;
  stod = stoi;
  whole = pos;
  at_least = λ a b. leb_ℤ b a;
  above = λ a b. ltb_ℤ b a;
  to_text = to_string;
}

abbrev good : Text
good = codes "filesystem.enabled = Yes\n"

abbrev bad : Text
bad = codes "filesystem.enabled = maybe\nx\n"

good_ok : ok (validate whole_numbers (codes "f") (some good)) ≡ true
unfolding validate parse_lines lines trim trim_start trim_end split_at_equals lookup insert text_beq
    text_less check_values known_keys validate_value to_lower semantic_checks check_disk_space
    check_system_load check_intervals check_reporting check_webhook check_rotation
good_ok = refl

validate-IsWellFormed_example :
    All (IsWellFormed whole_numbers known_keys) (parsed whole_numbers good).0
validate-IsWellFormed_example = validate-IsWellFormed whole_numbers (codes "f") good good_ok

validate-Counted_example : Counted (validate whole_numbers (codes "f") (some bad))
validate-Counted_example = validate-Counted whole_numbers (codes "f") (some bad)

bad_errors : (validate whole_numbers (codes "f") (some bad)).error_count ≡ 2
unfolding validate parse_lines lines trim trim_start trim_end split_at_equals lookup insert text_beq
    text_less check_values known_keys validate_value to_lower semantic_checks check_disk_space
    check_system_load check_intervals check_reporting check_webhook check_rotation
bad_errors = refl

abbrev answers : ConfigStore
answers = record {
  values = (codes "a", codes "ON") ∷ (codes "b", codes "3000000000") ∷ [];
  file_path = [];
}

-- A number that the validator accepts and the store does not read.
out_of_range : is_valid_int (codes "3000000000") ≡ true
unfolding is_valid_int
out_of_range = refl

default_taken : get_int (codes "b") (pos 7) answers ≡ pos 7
unfolding get_int get lookup text_beq stoi trim_start digits_from
default_taken = refl
