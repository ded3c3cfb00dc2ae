-- ===== src/Alert/Types.antt =====
-- The alerts, the alert rules and the state of the alert manager.
use change_of_system.Base.{ℕ, Bool, Option, List, Text, codes, Dict}
use change_of_system.Base.Int.{ℤ}
use change_of_system.Event.{Event, EventCategory, EventType, Timestamp}

pub data AlertSeverity : Type 0 where
  info warning critical emergency : AlertSeverity

unfoldable pub severity_name : AlertSeverity → Text
severity_name info = codes "INFO"
severity_name warning = codes "WARNING"
severity_name critical = codes "CRITICAL"
severity_name emergency = codes "EMERGENCY"

pub record Alert : Type 0 where
  pub id : ℕ
  pub timestamp : Timestamp
  pub rule_name : Text
  pub message : Text
  pub severity : AlertSeverity
  pub trigger_event : Event
  pub acknowledged : Bool
  pub metadata : Dict Text Text

-- `Pattern` is the type of compiled regular expressions; a null pointer is `none`.
pub record AlertRule (Pattern : Type 0) : Type 0 where
  pub name : Text
  pub description : Text
  pub enabled : Bool
  pub severity : AlertSeverity
  pub categories : List EventCategory
  pub types : List EventType
  pub source_pattern : Text
  pub target_pattern : Text
  pub summary_pattern : Text
  pub threshold_count : ℤ
  pub threshold_window_ms : ℤ
  pub cooldown_ms : ℤ
  pub custom_condition : Option (Event → Bool)
  pub message_template : Text
  pub compiled_source : Option Pattern
  pub compiled_target : Option Pattern
  pub compiled_summary : Option Pattern

-- A callback is a number that stands for it; `delivered` is the sequence of calls made to them,
-- the oldest first.
pub record AlertManager (Pattern : Type 0) : Type 0 where
  pub rules : List (AlertRule Pattern)
  pub alerts : List Alert
  pub callbacks : List ℕ
  pub rule_events : Dict Text (List Timestamp)
  pub last_triggered : Dict Text Timestamp
  pub next_alert_id : ℕ
  pub delivered : List (ℕ × Alert)

-- The readings of the clock while one rule is processed, in the order of the source: for the cutoff
-- of the window, for the cooldown and for the alert.
pub record Readings : Type 0 where
  pub at_threshold : Timestamp
  pub at_cooldown : Timestamp
  pub at_trigger : Timestamp
