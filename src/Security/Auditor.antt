-- ===== src/Security/Auditor.antt =====
-- The rules of the auditor, the report of a security event and the check of the rules. The mutex is
-- not modelled: an operation is one step.
pub mod Rules
pub mod Reports
use change_of_system.Base.{
  ℕ, ◌+◌, ◌-◌, ◌%◌, ◌^◌, Bool, true, false, not, ◌&&◌, ◌||◌, Option, none, some, List, [], ◌∷◌,
  ◌++◌, map, Text, text_key, lookup, insert, contains, is_empty, length, drop, select, count_if,
  ltb, leb, value_or, find_named, remove_named, change_named, if◌then◌else◌,
}
use change_of_system.Base.Int.{ℤ, pos, ltb_ℤ, leb_ℤ}
use change_of_system.Event.{Timestamp}
use change_of_system.Alert.Manager.{elapsed_ms}
use change_of_system.Security.Types.{
  SecurityEvent, SecurityRule, SecurityAuditor, Readings, security_key,
}

abbrev pub rule_name : SecurityRule → Text
rule_name r = r.name

-- Rules of the same name go, and the new one comes last.
unfoldable pub add_rule : SecurityRule → SecurityAuditor → SecurityAuditor
add_rule rule a = record a { rules = remove_named rule_name rule.name a.rules ++ rule ∷ [] }

unfoldable pub remove_rule : Text → SecurityAuditor → SecurityAuditor
remove_rule name a = record a { rules = remove_named rule_name name a.rules }

abbrev pub set_enabled : Bool → SecurityRule → SecurityRule
set_enabled enabled r = record r { enabled = enabled }

unfoldable pub enable_rule : Text → Bool → SecurityAuditor → SecurityAuditor
enable_rule name enabled a = record a {
  rules = change_named rule_name name (set_enabled enabled) a.rules;
}

unfoldable pub clear_rules : SecurityAuditor → SecurityAuditor
clear_rules a = record a { rules = [] }

unfoldable pub on_security_event : ℕ → SecurityAuditor → SecurityAuditor
on_security_event cb a = record a { callbacks = a.callbacks ++ cb ∷ [] }

unfoldable pub is_in_cooldown : Text → Timestamp → SecurityAuditor → Bool
is_in_cooldown name now a = elim (lookup name a.last_triggered) [
  | none ↦ false
  | some last ↦ elim (find_named rule_name name a.rules) [
    | none ↦ false
    | some rule ↦ ltb_ℤ (elapsed_ms now last) rule.cooldown_ms
  ]
]

-- The window of the rule of a name, one minute if there is none.
unfoldable pub window_of : Text → List SecurityRule → ℤ
window_of name rules = elim (find_named rule_name name rules) [
  | none ↦ pos 60000
  | some rule ↦ rule.threshold_window_ms
]

-- One more time, and those gone that are older than the window.
unfoldable pub record_time : ℤ → Timestamp → List Timestamp → List Timestamp
record_time window now times =
    select (λ t. not (ltb_ℤ window (elapsed_ms now t))) (times ++ now ∷ [])

unfoldable pub record_rule_event : Text → Timestamp → SecurityAuditor → SecurityAuditor
unfolding record_time
record_rule_event name now a = record a {
  rule_events =
      insert name
        (record_time (window_of name a.rules) now (value_or [] (lookup name a.rule_events)))
        a.rule_events;
}

-- The times that `check_rules` counts: less than the rule's window ago.
abbrev pub recent_count : SecurityRule → Timestamp → SecurityAuditor → ℕ
recent_count rule now a =
    count_if (λ t. ltb_ℤ (elapsed_ms now t) rule.threshold_window_ms)
      (value_or [] (lookup rule.name a.rule_events))

abbrev pub condition_accepts : Option (SecurityEvent → Bool) → SecurityEvent → Bool
condition_accepts none event = true
condition_accepts (some f) event = f event

abbrev pub type_matches : SecurityRule → SecurityEvent → Bool
type_matches rule event = is_empty rule.event_types || contains rule.event_types event.type

-- The rule is enabled, its types and condition accept the event, and it is not cooling down.
unfoldable pub is_checked : SecurityRule → SecurityEvent → Readings → SecurityAuditor → Bool
is_checked rule event now a =
    rule.enabled
    && type_matches rule event
    && condition_accepts rule.condition event
    && not (is_in_cooldown rule.name (now.at_cooldown rule.name) a)

-- The body of the loop of `check_rules`.
unfoldable pub check_rule :
    SecurityRule → SecurityEvent → Readings → SecurityAuditor → SecurityAuditor
check_rule rule event now a =
    if is_checked rule event now a
    then (let a' = record_rule_event rule.name (now.at_record rule.name) a in
        if leb_ℤ rule.threshold_count (pos (recent_count rule now.at_check a'))
        then record a' { last_triggered = insert rule.name now.at_check a'.last_triggered }
        else a')
    else a

unfoldable pub check_each :
    List SecurityRule → SecurityEvent → Readings → SecurityAuditor → SecurityAuditor
check_each [] event now a = a
check_each (rule ∷ rest) event now a = check_each rest event now (check_rule rule event now a)

unfoldable pub check_rules : SecurityEvent → Readings → SecurityAuditor → SecurityAuditor
unfolding check_each
check_rules event now a = check_each a.rules event now a

abbrev pub max_events : ℕ
max_events = 1000

-- The events after one more, with the oldest beyond the limit gone.
unfoldable pub push_event : SecurityEvent → List SecurityEvent → List SecurityEvent
push_event e events =
    let all = events ++ e ∷ [] in
    if ltb max_events (length all) then drop (length all - max_events) all else all

-- The event is stored under the next id; the callbacks are called with the event as it was given.
unfoldable pub report_security_event : Readings → SecurityEvent → SecurityAuditor → SecurityAuditor
report_security_event now event a =
    let stored = record event { id = a.next_event_id } in
    let a' = check_rules stored now (record a {
      next_event_id = (a.next_event_id + 1) % 2 ^ 64;
      events = push_event stored a.events;
    }) in
    record a' { delivered = a'.delivered ++ map (λ cb. (cb, event)) a.callbacks }

unfoldable pub total_security_events : SecurityAuditor → ℕ
total_security_events a = length a.events

unfoldable pub get_recent_events : ℕ → SecurityAuditor → List SecurityEvent
get_recent_events limit a =
    if leb (length a.events) limit then a.events else drop (length a.events - limit) a.events
