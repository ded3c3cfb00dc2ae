-- ===== src/Validate/Checks.antt =====
-- The checks of a whole file. A message is a constructor named for what it says, with the values that
-- it quotes.
pub mod Counts
use change_of_system.Base.{
  ℕ, suc, ◌+◌, Bool, false, not, ◌&&◌, ◌||◌, Option, none, some, List, [], ◌∷◌, ◌++◌, Text,
  text_key, text_beq, codes, is_empty, get_or, nat_beq, lookup, insert, Dict, value_or, contains,
  to_lower, starts_with, if◌then◌else◌,
}
use change_of_system.Base.Int.{ℤ, pos, ltb_ℤ, leb_ℤ}
use change_of_system.Config.Codec.{trim, split_at_equals}
use change_of_system.Config.Store.{stoi}
use change_of_system.Validate.Values.{Fault}

pub data Severity : Type 0 where
  error warning info : Severity

pub data Message : Type 0 where
  cannot_open : Text → Message
  no_separator : ℕ → Text → Message
  empty_key : ℕ → Message
  repeated_key : ℕ → Text → Message
  unknown_key : Text → Message
  invalid_value : Text → Text → Fault → Message
  thresholds_crossed : Text → Text → Message
  thresholds_out_of_range load_not_positive interval_negative interval_short : Message
  endpoint_missing url_missing url_no_http no_backups : Message

pub record ValidationIssue : Type 0 where
  pub severity : Severity
  pub key : Text
  pub message : Message

pub record ValidationResult : Type 0 where
  pub issues : List ValidationIssue
  pub error_count : ℕ
  pub warning_count : ℕ
  pub info_count : ℕ
  pub parsed_keys : ℕ
  pub file_exists : Bool

abbrev pub ok : ValidationResult → Bool
ok r = nat_beq r.error_count 0

abbrev pub new_result : ValidationResult
new_result = record {
  issues = [];
  error_count = 0;
  warning_count = 0;
  info_count = 0;
  parsed_keys = 0;
  file_exists = false;
}

-- `issues.push_back` with the increment of the counter that stands next to it.
abbrev pub add_error : Text → Message → ValidationResult → ValidationResult
add_error key message r = record r {
  issues = r.issues ++ record { severity = Severity.error; key = key; message = message } ∷ [];
  error_count = r.error_count + 1;
}

abbrev pub add_warning : Text → Message → ValidationResult → ValidationResult
add_warning key message r = record r {
  issues = r.issues ++ record { severity = Severity.warning; key = key; message = message } ∷ [];
  warning_count = r.warning_count + 1;
}

abbrev pub add_info : Text → Message → ValidationResult → ValidationResult
add_info key message r = record r {
  issues = r.issues ++ record { severity = Severity.info; key = key; message = message } ∷ [];
  info_count = r.info_count + 1;
}

-- The loop over the lines of the file, from the line number `n` on.
abbrev parse_setting :
    ℕ
    → Text
    → Option (Text × Text)
    → Dict Text Text × ValidationResult
    → Dict Text Text × ValidationResult
parse_setting n trimmed none (values, r) = (values, add_error [] (no_separator n trimmed) r)
parse_setting n trimmed (some (before, after)) (values, r) =
    let key = trim before in
    if is_empty key then (values, add_error [] (empty_key n) r) else (
      insert key (trim after) values,
      elim (lookup key values) [ none ↦ r | some old ↦ add_warning key (repeated_key n key) r ],
    )

unfoldable pub parse_line :
    ℕ → Text → Dict Text Text × ValidationResult → Dict Text Text × ValidationResult
parse_line n line state =
    let trimmed = trim line in
    let first = get_or trimmed 0 0 in
    if is_empty trimmed || nat_beq first b'#' || nat_beq first b';'
    then state
    else parse_setting n trimmed (split_at_equals trimmed) state

unfoldable pub parse_lines :
    ℕ → List Text → Dict Text Text × ValidationResult → Dict Text Text × ValidationResult
unfolding parse_line
parse_lines n [] state = state
parse_lines n (line ∷ rest) state = parse_lines (suc n) rest (parse_line n line state)

abbrev pub interval_keys : List Text
interval_keys =
    codes "filesystem.poll_interval_ms"
    ∷ codes "process.poll_interval_ms"
    ∷ codes "network.poll_interval_ms"
    ∷ codes "system_config.poll_interval_ms"
    ∷ codes "user_activity.poll_interval_ms"
    ∷ codes "service.poll_interval_ms"
    ∷ codes "file_integrity.poll_interval_ms"
    ∷ codes "usb_device.poll_interval_ms"
    ∷ codes "disk_space.poll_interval_ms"
    ∷ codes "system_load.poll_interval_ms"
    ∷ codes "log.poll_interval_ms"
    ∷ codes "port.poll_interval_ms"
    ∷ codes "package.poll_interval_ms"
    ∷ codes "environment.poll_interval_ms"
    ∷ codes "config.watch_interval_ms"
    ∷ codes "reporting.interval_ms"
    ∷ codes "webhook.timeout_ms"
    ∷ []

abbrev check_number : Text → Option ℤ → ValidationResult → ValidationResult
check_number key none r = r
check_number key (some v) r =
    if ltb_ℤ v (pos 0)
    then add_error key interval_negative r
    else if ltb_ℤ (pos 0) v && ltb_ℤ v (pos 100)
    then add_warning key interval_short r
    else r

abbrev check_interval : Text → Option Text → ValidationResult → ValidationResult
check_interval key none r = r
check_interval key (some value) r = check_number key (stoi value) r

unfoldable pub check_intervals : List Text → Dict Text Text → ValidationResult → ValidationResult
check_intervals [] values r = r
check_intervals (key ∷ rest) values r =
    check_intervals rest values (check_interval key (lookup key values) r)

-- A value that counts as true.
abbrev pub is_on : Option Text → Bool
is_on none = false
is_on (some value) =
    contains (codes "true" ∷ codes "1" ∷ codes "yes" ∷ codes "on" ∷ []) (to_lower value)

abbrev pub value_of : Text → Dict Text Text → Text
value_of key values = value_or [] (lookup key values)

unfoldable pub check_reporting : Dict Text Text → ValidationResult → ValidationResult
check_reporting values r =
    let endpoint = value_of (codes "reporting.endpoint") values in
    if is_on (lookup (codes "reporting.enabled") values)
      && (is_empty endpoint || text_beq endpoint (codes "https://example.com/api/events"))
    then add_warning (codes "reporting.endpoint") endpoint_missing r
    else r

unfoldable pub check_webhook : Dict Text Text → ValidationResult → ValidationResult
check_webhook values r =
    let url = value_of (codes "webhook.url") values in
    if not (is_on (lookup (codes "webhook.enabled") values))
    then r
    else if is_empty url
    then add_error (codes "webhook.url") url_missing r
    else if not (starts_with url (codes "http://")) && not (starts_with url (codes "https://"))
    then add_error (codes "webhook.url") url_no_http r
    else r

abbrev rotate_count : Option Text → Option ℤ
rotate_count none = some (pos 5)
rotate_count (some value) = stoi value

abbrev check_backups : Option ℤ → Option ℤ → ValidationResult → ValidationResult
check_backups none backups r = r
check_backups (some size) none r = r
check_backups (some size) (some backups) r =
    if ltb_ℤ (pos 0) size && leb_ℤ backups (pos 0)
    then add_warning (codes "storage.rotate_count") no_backups r
    else r

abbrev read_int : Option Text → Option ℤ
read_int none = none
read_int (some value) = stoi value

unfoldable pub check_rotation : Dict Text Text → ValidationResult → ValidationResult
check_rotation values r =
    check_backups (read_int (lookup (codes "storage.max_size_mb") values))
      (rotate_count (lookup (codes "storage.rotate_count") values)) r
