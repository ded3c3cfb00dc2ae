-- ===== src/Security/Types.antt =====
-- The security events, the rules and the state of the security auditor.
use mathlib.Core.Bool.{decide, decide_iff}
use change_of_system.Base.{ℕ, Bool, Option, List, Text, codes, Dict, Key, ltb}
use change_of_system.Base.Int.{ℤ}
use change_of_system.Event.{Timestamp}

pub data SecurityEventType : Type 0 where
  failed_login successful_login brute_force_attempt suspicious_login_location : SecurityEventType
  privilege_escalation sudo_usage root_access sensitive_file_access : SecurityEventType
  permission_change suid_bit_set port_scan suspicious_outbound : SecurityEventType
  firewall_change suspicious_process process_injection hidden_process : SecurityEventType
  user_created user_deleted group_membership_change password_change : SecurityEventType
  kernel_module_load service_started service_stopped unknown : SecurityEventType

unfoldable pub SecurityEventType-discrete : Discrete SecurityEventType
unfolding decide
SecurityEventType-discrete = hlevel

abbrev security_index : SecurityEventType → ℕ
security_index failed_login = 0
security_index successful_login = 1
security_index brute_force_attempt = 2
security_index suspicious_login_location = 3
security_index privilege_escalation = 4
security_index sudo_usage = 5
security_index root_access = 6
security_index sensitive_file_access = 7
security_index permission_change = 8
security_index suid_bit_set = 9
security_index port_scan = 10
security_index suspicious_outbound = 11
security_index firewall_change = 12
security_index suspicious_process = 13
security_index process_injection = 14
security_index hidden_process = 15
security_index user_created = 16
security_index user_deleted = 17
security_index group_membership_change = 18
security_index password_change = 19
security_index kernel_module_load = 20
security_index service_started = 21
security_index service_stopped = 22
security_index unknown = 23

instance abbrev pub security_key : Key SecurityEventType
security_key = record {
  less = λ a b. ltb (security_index a) (security_index b);
  equals = λ a b. decide (SecurityEventType-discrete a b);
  equals_iff = λ a b. decide_iff (SecurityEventType-discrete a b);
}

unfoldable pub security_event_type_name : SecurityEventType → Text
security_event_type_name failed_login = codes "failed_login"
security_event_type_name successful_login = codes "successful_login"
security_event_type_name brute_force_attempt = codes "brute_force_attempt"
security_event_type_name suspicious_login_location = codes "suspicious_login_location"
security_event_type_name privilege_escalation = codes "privilege_escalation"
security_event_type_name sudo_usage = codes "sudo_usage"
security_event_type_name root_access = codes "root_access"
security_event_type_name sensitive_file_access = codes "sensitive_file_access"
security_event_type_name permission_change = codes "permission_change"
security_event_type_name suid_bit_set = codes "suid_bit_set"
security_event_type_name port_scan = codes "port_scan"
security_event_type_name suspicious_outbound = codes "suspicious_outbound"
security_event_type_name firewall_change = codes "firewall_change"
security_event_type_name suspicious_process = codes "suspicious_process"
security_event_type_name process_injection = codes "process_injection"
security_event_type_name hidden_process = codes "hidden_process"
security_event_type_name user_created = codes "user_created"
security_event_type_name user_deleted = codes "user_deleted"
security_event_type_name group_membership_change = codes "group_membership_change"
security_event_type_name password_change = codes "password_change"
security_event_type_name kernel_module_load = codes "kernel_module_load"
security_event_type_name service_started = codes "service_started"
security_event_type_name service_stopped = codes "service_stopped"
security_event_type_name unknown = codes "unknown"

-- `severity` is an `int`: 1 information, 2 warning, 3 high, 4 critical.
pub record SecurityEvent : Type 0 where
  pub id : ℕ
  pub timestamp : Timestamp
  pub type : SecurityEventType
  pub source : Text
  pub target : Text
  pub summary : Text
  pub severity : ℤ
  pub details : Dict Text Text
  pub host : Text
  pub platform : Text

pub record SecurityRule : Type 0 where
  pub name : Text
  pub description : Text
  pub enabled : Bool
  pub severity : ℤ
  pub event_types : List SecurityEventType
  pub condition : Option (SecurityEvent → Bool)
  pub threshold_count : ℤ
  pub threshold_window_ms : ℤ
  pub cooldown_ms : ℤ

-- A callback is a number that stands for it; `delivered` is the sequence of calls made to them,
-- the oldest first.
pub record SecurityAuditor : Type 0 where
  pub rules : List SecurityRule
  pub events : List SecurityEvent
  pub callbacks : List ℕ
  pub rule_events : Dict Text (List Timestamp)
  pub last_triggered : Dict Text Timestamp
  pub next_event_id : ℕ
  pub delivered : List (ℕ × SecurityEvent)

-- The readings of the clock while one security event is reported: for its timestamp, at the start of
-- `check_rules`, and for the rule of a name in `is_in_cooldown` and `record_rule_event`.
pub record Readings : Type 0 where
  pub at_event : Timestamp
  pub at_check : Timestamp
  pub at_cooldown : Text → Timestamp
  pub at_record : Text → Timestamp
