-- ===== src/Webhook/Payload.antt =====
-- The payloads: their time, their members and their text.
use change_of_system.Base.{
  ℕ, ◌+◌, ◌-◌, ◌*◌, ◌/◌, ◌%◌, Bool, true, false, Option, none, some, [], ◌∷◌, ◌++◌, Text, text_key,
  codes, decimal, insert, is_empty, Dict, ltb, leb, if◌then◌else◌,
}
use change_of_system.Base.Int.{pos, to_string}
use change_of_system.Event.{Timestamp}
use change_of_system.Json.{escape_json, hex_digit}
use change_of_system.Config.Store.{insert_all}
use change_of_system.Alert.Types.{Alert, AlertSeverity, info, warning, critical, emergency}
use change_of_system.Security.Types.{SecurityEvent, security_event_type_name}
use change_of_system.Webhook.Types.{WebhookPayload, severity_to_int}

-- `%m` and its like: two digits.
abbrev two_digits : ℕ → Text
two_digits n = (48 + (n / 10) % 10) ∷ (48 + n % 10) ∷ []

-- The date of a day of the Gregorian calendar, counted from 1970-01-01, as `gmtime_r` has it.
pub record Date : Type 0 where
  pub year : ℕ
  pub month : ℕ
  pub day : ℕ

abbrev pub date_of : ℕ → Date
date_of days =
    let z = days + 719468 in
    let day_of_era = z % 146097 in
    let year_of_era =
      (day_of_era - day_of_era / 1460 + day_of_era / 36524 - day_of_era / 146096) / 365 in
    let day_of_year = day_of_era - (365 * year_of_era + year_of_era / 4 - year_of_era / 100) in
    let from_march = (5 * day_of_year + 2) / 153 in
    let month = if ltb from_march 10 then from_march + 3 else from_march - 9 in
    record {
      year = year_of_era + (z / 146097) * 400 + (if leb month 2 then 1 else 0);
      month = month;
      day = day_of_year - (153 * from_march + 2) / 5 + 1;
    }

-- `strftime` with `%Y-%m-%dT%H:%M:%S`, then the milliseconds as they are.
unfoldable pub timestamp_to_iso8601 : Timestamp → Text
timestamp_to_iso8601 tp =
    let seconds = tp / 1000000000 in
    let date = date_of (seconds / 86400) in
    decimal date.year
    ++ codes "-"
    ++ two_digits date.month
    ++ codes "-"
    ++ two_digits date.day
    ++ codes "T"
    ++ two_digits ((seconds / 3600) % 24)
    ++ codes ":"
    ++ two_digits ((seconds / 60) % 60)
    ++ codes ":"
    ++ two_digits (seconds % 60)
    ++ codes "."
    ++ decimal ((tp / 1000000) % 1000)
    ++ codes "Z"

abbrev pub severity_to_string : AlertSeverity → Text
severity_to_string info = codes "info"
severity_to_string warning = codes "warning"
severity_to_string critical = codes "critical"
severity_to_string emergency = codes "emergency"

unfoldable pub alert_payload : Alert → WebhookPayload
unfolding timestamp_to_iso8601
alert_payload alert = record {
  id = decimal alert.id;
  timestamp = timestamp_to_iso8601 alert.timestamp;
  event_type = codes "alert";
  source = alert.trigger_event.source;
  target = alert.trigger_event.target;
  summary = alert.message;
  severity = pos (severity_to_int alert.severity);
  details = insert_all alert.metadata (
      insert (codes "severity") (severity_to_string alert.severity)
        (insert (codes "rule_name") alert.rule_name []));
  signature = [];
}

unfoldable pub security_payload : SecurityEvent → WebhookPayload
unfolding timestamp_to_iso8601
security_payload event = record {
  id = decimal event.id;
  timestamp = timestamp_to_iso8601 event.timestamp;
  event_type = codes "security_event";
  source = event.source;
  target = event.target;
  summary = event.summary;
  severity = event.severity;
  details =
      insert_all event.details (insert (codes "type") (security_event_type_name event.type) []);
  signature = [];
}

abbrev member : Text → Text → Text
member name value = codes "\"" ++ name ++ codes "\":\"" ++ escape_json value ++ codes "\""

-- The details behind the first one and with it.
abbrev details_text : Bool → Dict Text Text → Text
details_text first [] = []
details_text first ((key, value) ∷ rest) =
    (if first then [] else codes ",") ++ member (escape_json key) value ++ details_text false rest

unfoldable pub serialize_payload : WebhookPayload → Text
serialize_payload payload =
    codes "{"
    ++ member (codes "id") payload.id
    ++ codes ","
    ++ member (codes "timestamp") payload.timestamp
    ++ codes ","
    ++ member (codes "event_type") payload.event_type
    ++ codes ","
    ++ member (codes "source") payload.source
    ++ codes ","
    ++ member (codes "target") payload.target
    ++ codes ","
    ++ member (codes "summary") payload.summary
    ++ codes ",\"severity\":"
    ++ to_string payload.severity
    ++ codes ",\"details\":{"
    ++ details_text true payload.details
    ++ codes "}"
    ++ (if is_empty payload.signature
        then []
        else codes "," ++ member (codes "signature") payload.signature)
    ++ codes "}"

-- The bytes of a digest, two hexadecimal digits each; nothing for a null pointer.
abbrev hex_bytes : Text → Text
hex_bytes [] = []
hex_bytes (b ∷ bs) = hex_digit (b / 16) ∷ hex_digit (b % 16) ∷ hex_bytes bs

abbrev pub signature_text : Option Text → Text
signature_text none = []
signature_text (some digest) = hex_bytes digest
