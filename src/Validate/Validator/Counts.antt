-- ===== src/Validate/Validator/Counts.antt =====
-- The counters of a validation are the numbers of its issues, and a file without errors has only
-- valid values.
use change_of_system.Base.{
  ◌≡◌, refl, true, ◌||◌, Option, none, some, [], ◌∷◌, Text, text_key, codes, length, lookup, Dict,
  All, nat_beq_iff, arith,
}
use change_of_system.Config.Codec.{lines}
use change_of_system.Validate.Keys.{KeySpec, known_keys}
use change_of_system.Validate.Values.{Doubles, Fault, validate_value}
use change_of_system.Validate.Checks.{
  ValidationResult, new_result, ok, parse_lines, check_intervals, interval_keys, check_reporting,
  check_webhook,
}
use change_of_system.Validate.Checks.Counts.{
  Counted, Extends, same, both, either, error_added, warning_added, info_added, parse_lines-Extends,
  check_intervals-Extends, check_reporting-Extends, check_webhook-Extends, check_rotation-Extends,
}
use change_of_system.Validate.Values.Forms.{HasForm, validate_value-HasForm}
use change_of_system.Validate.Validator.{
  out_of_range, check_thresholds, check_disk_space, check_load, check_system_load, semantic_checks,
  found_fault, check_spec, check_values, validate, read_double, checked,
}

module _ (doubles : Doubles) where
  open doubles use {Double}

  check_thresholds-Extends :
      (w c : Option Double) (r : ValidationResult) → Extends r (check_thresholds doubles w c r)
  check_thresholds-Extends none c r = same r
  check_thresholds-Extends (some w) none r = same r
  check_thresholds-Extends (some w) (some c) r =
      either (doubles.at_least w c) r _ _ (error_added _ _ r) (
        either (out_of_range doubles w || out_of_range doubles c) r _ r (warning_added _ _ r)
          (same r))

  check_load-Extends :
      (load : Option Double) (r : ValidationResult) → Extends r (check_load doubles load r)
  check_load-Extends none r = same r
  check_load-Extends (some load) r =
      either (doubles.at_least (doubles.whole 0) load) r _ r (warning_added _ _ r) (same r)

  semantic_checks-Extends :
      (values : Dict Text Text) (r : ValidationResult)
      → Extends r (semantic_checks doubles values r)
  unfolding semantic_checks check_disk_space check_system_load
  semantic_checks-Extends values r =
      let r1 : ValidationResult = check_disk_space doubles values r in
      let r2 : ValidationResult = check_system_load doubles values r1 in
      let r3 : ValidationResult = check_intervals interval_keys values r2 in
      let r4 : ValidationResult = check_reporting values r3 in
      let r5 : ValidationResult = check_webhook values r4 in
      both r r1 _
        (check_thresholds-Extends
          (read_double doubles (lookup (codes "disk_space.warning_threshold") values))
          (read_double doubles (lookup (codes "disk_space.critical_threshold") values)) r)
        (both r1 r2 _
          (check_load-Extends
            (read_double doubles (lookup (codes "system_load.load_threshold") values)) r1)
          (both r2 r3 _ (check_intervals-Extends interval_keys values r2) (
            both r3 r4 _ (check_reporting-Extends values r3)
              (both r4 r5 _ (check_webhook-Extends values r4) (check_rotation-Extends values r5)))))

  -- What is wrong with the value of a key, nothing if the key is unknown.
  abbrev pub fault_of : Text → Text → Option KeySpec → Option Fault
  fault_of key value none = none
  fault_of key value (some s) = validate_value doubles key s.type value

  abbrev pub IsFaultless : Dict Text KeySpec → Text × Text → Type 0
  IsFaultless specs (key, value) = fault_of key value (lookup key specs) ≡ none

  found_fault-Extends :
      (key value : Text) (fault : Option Fault) (r : ValidationResult)
      → Extends r (found_fault doubles key value fault r)
  found_fault-Extends key value none r = same r
  found_fault-Extends key value (some fault) r = error_added key _ r

  check_spec-Extends :
      (key value : Text) (s : Option KeySpec) (r : ValidationResult)
      → Extends r (check_spec doubles key value s r)
  check_spec-Extends key value none r = info_added key _ r
  check_spec-Extends key value (some s) r =
      found_fault-Extends key value (validate_value doubles key s.type value) r

  check_values-Extends :
      (specs : Dict Text KeySpec) (values : Dict Text Text) (r : ValidationResult)
      → Extends r (check_values doubles specs values r)
  unfolding check_values
  check_values-Extends specs [] r = same r
  check_values-Extends specs ((key, value) ∷ rest) r =
      both r (check_spec doubles key value (lookup key specs) r) _
        (check_spec-Extends key value (lookup key specs) r) (check_values-Extends specs rest _)

  found_fault-none :
      (key value : Text) (fault : Option Fault) (r : ValidationResult)
      → (found_fault doubles key value fault r).error_count ≡ 0
      → fault ≡ none
  found_fault-none key value none r h = refl
  found_fault-none key value (some fault) r h = absurd (ground (arith, h))

  check_spec-IsFaultless :
      (key value : Text) (s : Option KeySpec) (r : ValidationResult)
      → (check_spec doubles key value s r).error_count ≡ 0
      → fault_of key value s ≡ none
  check_spec-IsFaultless key value none r h = refl
  check_spec-IsFaultless key value (some s) r h =
      found_fault-none key value (validate_value doubles key s.type value) r h

  check_values-IsFaultless :
      (specs : Dict Text KeySpec) (values : Dict Text Text) (r : ValidationResult)
      → (check_values doubles specs values r).error_count ≡ 0
      → All (IsFaultless specs) values
  unfolding check_values
  check_values-IsFaultless specs [] r h = tt
  check_values-IsFaultless specs ((key, value) ∷ rest) r h =
      let next : ValidationResult = check_spec doubles key value (lookup key specs) r in
      let later : Extends next (check_values doubles specs rest next) =
        check_values-Extends specs rest next in
      let clean : next.error_count ≡ 0 = omega (arith, later.errors, h) in
      (
        check_spec-IsFaultless key value (lookup key specs) r clean,
        check_values-IsFaultless specs rest next h,
      )

  -- The settings that a file holds, by the lines that the validator can read.
  abbrev pub parsed : Text → Dict Text Text × ValidationResult
  parsed file = parse_lines 1 (lines file) ([], record new_result { file_exists = true })

  checked-Extends :
      (values : Dict Text Text) (r : ValidationResult)
      → Extends (record r { parsed_keys = length values }) (checked doubles (values, r))
  checked-Extends values r =
      let start : ValidationResult = record r { parsed_keys = length values } in
      both start (check_values doubles known_keys values start) _
        (check_values-Extends known_keys values start) (semantic_checks-Extends values _)

  new_result-Counted : Counted (record new_result { file_exists = true })
  new_result-Counted = record { errors = refl; warnings = refl; infos = refl }

  -- The counters of a validation are the numbers of its errors, warnings and hints.
  pub validate-Counted : (path : Text) (file : Option Text) → Counted (validate doubles path file)
  unfolding validate
  validate-Counted path none = record { errors = refl; warnings = refl; infos = refl }
  validate-Counted path (some file) =
      let (values, r) = parsed file in
      let read : Counted r =
        (parse_lines-Extends 1 (lines file) [] (record new_result { file_exists = true })).counted
          new_result-Counted in
      (checked-Extends values r).counted
        (record { errors = read.errors; warnings = read.warnings; infos = read.infos })

  validate-IsFaultless :
      (path file : Text)
      → ok (validate doubles path (some file)) ≡ true
      → All (IsFaultless known_keys) (parsed file).0
  unfolding validate
  validate-IsFaultless path file h =
      let (values, r) = parsed file in
      let start : ValidationResult = record r { parsed_keys = length values } in
      let found : ValidationResult = check_values doubles known_keys values start in
      let none_left : (checked doubles (values, r)).error_count ≡ 0 = (nat_beq_iff _ 0).0 h in
      let later : Extends found (semantic_checks doubles values found) =
        semantic_checks-Extends values found in
      check_values-IsFaultless known_keys values start (omega (arith, later.errors, none_left))

  -- The value has the form of the type of its key, if that is known.
  abbrev pub FormOf : Text → Text → Option KeySpec → Type 0
  FormOf key value none = Unit
  FormOf key value (some s) = HasForm doubles key s.type value

  abbrev pub IsWellFormed : Dict Text KeySpec → Text × Text → Type 0
  IsWellFormed specs (key, value) = FormOf key value (lookup key specs)

  fault_of-none :
      (key value : Text) (s : Option KeySpec) → fault_of key value s ≡ none → FormOf key value s
  fault_of-none key value none h = tt
  fault_of-none key value (some s) h = validate_value-HasForm doubles key s.type value h

  All-IsWellFormed :
      (specs : Dict Text KeySpec) (values : Dict Text Text)
      → All (IsFaultless specs) values
      → All (IsWellFormed specs) values
  All-IsWellFormed specs [] h = tt
  All-IsWellFormed specs ((key, value) ∷ rest) h =
      (fault_of-none key value (lookup key specs) h.0, All-IsWellFormed specs rest h.1)

  -- In a file that the validator finds no error in, each key that it knows has a value of the form of
  -- its type: one of eight words for a truth value, digits behind a sign or none for an integer,
  -- whatever its size, a text that `std::stod` reads for a number, and in the list of the watched
  -- ports only texts that `std::stoi` reads as a number from 0 to 65535, and blanks.
  pub validate-IsWellFormed :
      (path file : Text)
      → ok (validate doubles path (some file)) ≡ true
      → All (IsWellFormed known_keys) (parsed file).0
  validate-IsWellFormed path file h =
      All-IsWellFormed known_keys (parsed file).0 (validate-IsFaultless path file h)
