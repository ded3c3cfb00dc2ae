-- ===== src/Webhook/Types.antt =====
-- The webhooks, the payloads, the results and the state of the notifier.
use mathlib.Core.Bool.{decide, decide_iff}
use change_of_system.Base.{ℕ, Bool, Option, List, [], Text, Dict, Key, ltb}
use change_of_system.Base.Int.{ℤ}
use change_of_system.Event.{Timestamp}
use change_of_system.Alert.Types.{AlertSeverity, info, warning, critical, emergency}
use change_of_system.Security.Types.{SecurityEventType}

unfoldable pub AlertSeverity-discrete : Discrete AlertSeverity
unfolding decide
AlertSeverity-discrete = hlevel

-- `severity_to_int`.
abbrev pub severity_to_int : AlertSeverity → ℕ
severity_to_int info = 1
severity_to_int warning = 2
severity_to_int critical = 3
severity_to_int emergency = 4

instance abbrev pub severity_key : Key AlertSeverity
severity_key = record {
  less = λ a b. ltb (severity_to_int a) (severity_to_int b);
  equals = λ a b. decide (AlertSeverity-discrete a b);
  equals_iff = λ a b. decide_iff (AlertSeverity-discrete a b);
}

pub record WebhookConfig : Type 0 where
  pub name : Text
  pub url : Text
  pub secret : Text
  pub headers : Dict Text Text
  pub enabled : Bool
  pub timeout_ms : ℤ
  pub retry_count : ℤ
  pub retry_delay_ms : ℤ
  pub min_severities : List AlertSeverity
  pub security_event_types : List SecurityEventType
  pub send_alerts : Bool
  pub send_security_events : Bool

pub record WebhookPayload : Type 0 where
  pub id : Text
  pub timestamp : Text
  pub event_type : Text
  pub source : Text
  pub target : Text
  pub summary : Text
  pub severity : ℤ
  pub details : Dict Text Text
  pub signature : Text

pub record WebhookResult : Type 0 where
  pub id : ℕ
  pub webhook_name : Text
  pub url : Text
  pub success : Bool
  pub http_status : ℕ
  pub error_message : Text
  pub timestamp : Timestamp
  pub duration_ms : ℤ

-- A callback is a number that stands for it; `delivered` is the sequence of calls made to them,
-- the oldest first.
pub record WebhookNotifier : Type 0 where
  pub webhooks : List WebhookConfig
  pub results : List WebhookResult
  pub callbacks : List ℕ
  pub total_sent : ℕ
  pub total_success : ℕ
  pub total_failed : ℕ
  pub next_result_id : ℕ
  pub delivered : List (ℕ × WebhookResult)

abbrev pub new_notifier : WebhookNotifier
new_notifier = record {
  webhooks = [];
  results = [];
  callbacks = [];
  total_sent = 0;
  total_success = 0;
  total_failed = 0;
  next_result_id = 1;
  delivered = [];
}

-- What libcurl makes of a request: no handle, a transfer that failed with a message, or an answer
-- with a status.
pub data Transfer : Type 0 where
  no_handle : Transfer
  failed : Text → Transfer
  answered : ℕ → Transfer

-- What the notifier uses from outside of the repository: libcurl, asked with the address, the body,
-- the headers and the timeout of the n-th request; the HMAC of OpenSSL, or `none` for its null
-- pointer; and the readings of the clock before and behind the n-th request.
pub record Outside : Type 0 where
  pub curl : ℕ → Text → Text → Dict Text Text → ℤ → Transfer
  pub hmac : Text → Text → Option Text
  pub before : ℕ → Timestamp
  pub behind : ℕ → Timestamp
