-- ===== src/Validate/Checks/Counts.antt =====
-- The checks keep the counters of a result equal to the numbers of its issues, and take no error back.
use change_of_system.Base.{
  ℕ, suc, ◌+◌, ◌≤◌, ◌≡◌, Bool, true, false, not, ◌&&◌, ◌||◌, Option, none, some, List, [], ◌∷◌,
  ◌++◌, Text, text_key, codes, starts_with, count_if, lookup, Dict, nat_beq, arith, if◌then◌else◌,
  is_empty, get_or,
}
use change_of_system.Base.Int.{ℤ, pos, ltb_ℤ}
use change_of_system.Config.Codec.{trim, split_at_equals}
use change_of_system.Config.Store.{stoi}
use change_of_system.Validate.Checks.{
  Severity, error, warning, info, Message, ValidationIssue, ValidationResult, add_error,
  add_warning, add_info, parse_setting, parse_line, parse_lines, check_number, check_interval,
  check_intervals, check_reporting, check_webhook, check_backups, check_rotation, read_int,
  rotate_count, is_on, value_of,
}

abbrev pub is_error : ValidationIssue → Bool
is_error i = elim i.severity [ error ↦ true | _ ↦ false ]

abbrev pub is_warning : ValidationIssue → Bool
is_warning i = elim i.severity [ warning ↦ true | _ ↦ false ]

abbrev pub is_info : ValidationIssue → Bool
is_info i = elim i.severity [ info ↦ true | _ ↦ false ]

pub record Counted (r : ValidationResult) : Type 0 where
  pub errors : r.error_count ≡ count_if is_error r.issues
  pub warnings : r.warning_count ≡ count_if is_warning r.issues
  pub infos : r.info_count ≡ count_if is_info r.issues

-- What every check does: it takes no error back and keeps the counters right.
pub record Extends (r r' : ValidationResult) : Type 0 where
  pub errors : r.error_count ≤ r'.error_count
  pub counted : Counted r → Counted r'

count-snoc :
    (p : ValidationIssue → Bool) (xs : List ValidationIssue) (i : ValidationIssue)
    → count_if p (xs ++ i ∷ []) ≡ count_if p xs + (if p i then 1 else 0)
count-snoc p [] i = ground arith
count-snoc p (x ∷ xs) i = ground (arith, count-snoc p xs i)

pub same : (r : ValidationResult) → Extends r r
same r = record { errors = omega arith; counted = λ h. h }

pub both : (u v w : ValidationResult) → Extends u v → Extends v w → Extends u w
both u v w h k = record {
  errors = omega (arith, h.errors, k.errors);
  counted = λ c. k.counted (h.counted c);
}

pub either :
    (b : Bool) (r x y : ValidationResult)
    → Extends r x
    → Extends r y
    → Extends r (if b then x else y)
either true r x y h k = h
either false r x y h k = k

pub error_added : (key : Text) (m : Message) (r : ValidationResult) → Extends r (add_error key m r)
error_added key m r =
    let i : ValidationIssue = record { severity = Severity.error; key = key; message = m } in
    record {
      errors = omega arith;
      counted = λ c. record {
        errors = ground (arith, c.errors, count-snoc is_error r.issues i);
        warnings = ground (arith, c.warnings, count-snoc is_warning r.issues i);
        infos = ground (arith, c.infos, count-snoc is_info r.issues i);
      };
    }

pub warning_added :
    (key : Text) (m : Message) (r : ValidationResult) → Extends r (add_warning key m r)
warning_added key m r =
    let i : ValidationIssue = record { severity = Severity.warning; key = key; message = m } in
    record {
      errors = omega arith;
      counted = λ c. record {
        errors = ground (arith, c.errors, count-snoc is_error r.issues i);
        warnings = ground (arith, c.warnings, count-snoc is_warning r.issues i);
        infos = ground (arith, c.infos, count-snoc is_info r.issues i);
      };
    }

pub info_added : (key : Text) (m : Message) (r : ValidationResult) → Extends r (add_info key m r)
info_added key m r =
    let i : ValidationIssue = record { severity = Severity.info; key = key; message = m } in
    record {
      errors = omega arith;
      counted = λ c. record {
        errors = ground (arith, c.errors, count-snoc is_error r.issues i);
        warnings = ground (arith, c.warnings, count-snoc is_warning r.issues i);
        infos = ground (arith, c.infos, count-snoc is_info r.issues i);
      };
    }

repeated-Extends :
    (n : ℕ) (key : Text) (old : Option Text) (r : ValidationResult)
    → Extends r (elim old [ none ↦ r | some v ↦ add_warning key (Message.repeated_key n key) r ])
repeated-Extends n key none r = same r
repeated-Extends n key (some v) r = warning_added key (Message.repeated_key n key) r

either_state :
    (b : Bool) (r : ValidationResult) (x y : Dict Text Text × ValidationResult)
    → Extends r x.1
    → Extends r y.1
    → Extends r (if b then x else y).1
either_state true r x y h k = h
either_state false r x y h k = k

parse_setting-Extends :
    (n : ℕ) (trimmed : Text) (found : Option (Text × Text)) (values : Dict Text Text)
    (r : ValidationResult)
    → Extends r (parse_setting n trimmed found (values, r)).1
parse_setting-Extends n trimmed none values r = error_added [] (Message.no_separator n trimmed) r
parse_setting-Extends n trimmed (some (before, after)) values r =
    either_state (is_empty (trim before)) r _ _ (error_added [] (Message.empty_key n) r)
      (repeated-Extends n (trim before) (lookup (trim before) values) r)

pub parse_lines-Extends :
    (n : ℕ) (ls : List Text) (values : Dict Text Text) (r : ValidationResult)
    → Extends r (parse_lines n ls (values, r)).1
unfolding parse_lines parse_line
parse_lines-Extends n [] values r = same r
parse_lines-Extends n (line ∷ rest) values r =
    let (values', r') = parse_line n line (values, r) in
    both r r' _
      (either_state
        (is_empty (trim line)
          || nat_beq (get_or (trim line) 0 0) b'#'
          || nat_beq (get_or (trim line) 0 0) b';')
        r (values, r) _ (same r)
        (parse_setting-Extends n (trim line) (split_at_equals (trim line)) values r))
      (parse_lines-Extends (suc n) rest values' r')

check_number-Extends :
    (key : Text) (v : Option ℤ) (r : ValidationResult) → Extends r (check_number key v r)
check_number-Extends key none r = same r
check_number-Extends key (some v) r =
    either (ltb_ℤ v (pos 0)) r _ _ (error_added key Message.interval_negative r) (
      either (ltb_ℤ (pos 0) v && ltb_ℤ v (pos 100)) r _ r
        (warning_added key Message.interval_short r) (same r))

check_interval-Extends :
    (key : Text) (v : Option Text) (r : ValidationResult) → Extends r (check_interval key v r)
check_interval-Extends key none r = same r
check_interval-Extends key (some v) r = check_number-Extends key (stoi v) r

pub check_intervals-Extends :
    (keys : List Text) (values : Dict Text Text) (r : ValidationResult)
    → Extends r (check_intervals keys values r)
unfolding check_intervals
check_intervals-Extends [] values r = same r
check_intervals-Extends (key ∷ keys) values r =
    both r (check_interval key (lookup key values) r) _
      (check_interval-Extends key (lookup key values) r) (check_intervals-Extends keys values _)

pub check_reporting-Extends :
    (values : Dict Text Text) (r : ValidationResult) → Extends r (check_reporting values r)
unfolding check_reporting
check_reporting-Extends values r = either _ r _ r (warning_added _ _ r) (same r)

pub check_webhook-Extends :
    (values : Dict Text Text) (r : ValidationResult) → Extends r (check_webhook values r)
unfolding check_webhook
check_webhook-Extends values r =
    let url : Text = value_of (codes "webhook.url") values in
    either (not (is_on (lookup (codes "webhook.enabled") values))) r r _ (same r) (
      either (is_empty url) r _ _ (error_added (codes "webhook.url") Message.url_missing r) (
        either (not (starts_with url (codes "http://")) && not (starts_with url (codes "https://")))
          r _ r (error_added (codes "webhook.url") Message.url_no_http r) (same r)))

check_backups-Extends :
    (size backups : Option ℤ) (r : ValidationResult) → Extends r (check_backups size backups r)
check_backups-Extends none backups r = same r
check_backups-Extends (some size) none r = same r
check_backups-Extends (some size) (some backups) r = either _ r _ r (warning_added _ _ r) (same r)

pub check_rotation-Extends :
    (values : Dict Text Text) (r : ValidationResult) → Extends r (check_rotation values r)
unfolding check_rotation
check_rotation-Extends values r =
    check_backups-Extends (read_int (lookup (codes "storage.max_size_mb") values))
      (rotate_count (lookup (codes "storage.rotate_count") values)) r
