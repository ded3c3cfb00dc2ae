-- ===== src/Validate/Validator.antt =====
-- `semantic_checks` and `ConfigValidator::validate`.
pub mod Counts
use change_of_system.Base.{
  ℕ, Bool, true, false, not, ◌&&◌, ◌||◌, Option, none, some, List, [], ◌∷◌, ◌++◌, Text, text_key,
  codes, length, lookup, Dict, if◌then◌else◌,
}
use change_of_system.Config.Codec.{lines}
use change_of_system.Validate.Keys.{KeySpec, known_keys}
use change_of_system.Validate.Values.{Doubles, Fault, validate_value}
use change_of_system.Validate.Checks.{
  Message, ValidationResult, new_result, add_error, add_warning, add_info, parse_lines,
  check_intervals, interval_keys, check_reporting, check_webhook, check_rotation,
}

module _ (doubles : Doubles) where
  open doubles use {Double}

  -- `std::stod` of the value of a key, `none` for a missing key too.
  abbrev read_double : Option Text → Option Double
  read_double none = none
  read_double (some value) = doubles.stod value

  -- `v < 0 || v > 100`.
  abbrev out_of_range : Double → Bool
  out_of_range v = doubles.above (doubles.whole 0) v || doubles.above v (doubles.whole 100)

  abbrev check_thresholds : Option Double → Option Double → ValidationResult → ValidationResult
  check_thresholds none c r = r
  check_thresholds (some w) none r = r
  check_thresholds (some w) (some c) r =
      if doubles.at_least w c
      then add_error (codes "disk_space.warning_threshold")
          (Message.thresholds_crossed (doubles.to_text w) (doubles.to_text c)) r
      else if out_of_range w || out_of_range c
      then add_warning (codes "disk_space") Message.thresholds_out_of_range r
      else r

  unfoldable pub check_disk_space : Dict Text Text → ValidationResult → ValidationResult
  check_disk_space values r =
      check_thresholds (read_double (lookup (codes "disk_space.warning_threshold") values))
        (read_double (lookup (codes "disk_space.critical_threshold") values)) r

  abbrev check_load : Option Double → ValidationResult → ValidationResult
  check_load none r = r
  check_load (some load) r =
      if doubles.at_least (doubles.whole 0) load
      then add_warning (codes "system_load.load_threshold") Message.load_not_positive r
      else r

  unfoldable pub check_system_load : Dict Text Text → ValidationResult → ValidationResult
  check_system_load values r =
      check_load (read_double (lookup (codes "system_load.load_threshold") values)) r

  unfoldable pub semantic_checks : Dict Text Text → ValidationResult → ValidationResult
  unfolding check_disk_space check_system_load check_intervals check_reporting check_webhook
      check_rotation
  semantic_checks values r = check_rotation values (
      check_webhook values (
        check_reporting values (
          check_intervals interval_keys values
            (check_system_load values (check_disk_space values r)))))

  abbrev found_fault : Text → Text → Option Fault → ValidationResult → ValidationResult
  found_fault key value none r = r
  found_fault key value (some fault) r = add_error key (Message.invalid_value key value fault) r

  abbrev check_spec : Text → Text → Option KeySpec → ValidationResult → ValidationResult
  check_spec key value none r = add_info key (Message.unknown_key key) r
  check_spec key value (some s) r =
      found_fault key value (validate_value doubles key s.type value) r

  -- The loop over the parsed settings.
  unfoldable pub check_values :
      Dict Text KeySpec → Dict Text Text → ValidationResult → ValidationResult
  check_values specs [] r = r
  check_values specs ((key, value) ∷ rest) r =
      check_values specs rest (check_spec key value (lookup key specs) r)

  abbrev checked : Dict Text Text × ValidationResult → ValidationResult
  checked (values, r) =
      semantic_checks values
        (check_values known_keys values (record r { parsed_keys = length values }))

  -- `file` is what the file of that path holds, `none` if it cannot be opened.
  unfoldable pub validate : Text → Option Text → ValidationResult
  unfolding parse_lines check_values semantic_checks
  validate config_path none = add_error [] (Message.cannot_open config_path) new_result
  validate config_path (some file) =
      checked (parse_lines 1 (lines file) ([], record new_result { file_exists = true }))
