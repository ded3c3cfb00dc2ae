-- ===== src/Webhook/Notifier.antt =====
-- The operations of `WebhookNotifier`. Its callbacks run inside of its lock: they are recorded, and
-- what they would call back is not modelled.
pub mod Counts
pub mod Attempts
use change_of_system.Base.{
  ℕ, zero, suc, ◌+◌, ◌-◌, ◌*◌, ◌^◌, ◌%◌, Bool, true, false, not, ◌&&◌, ◌||◌, Option, none, some,
  List, [], ◌∷◌, ◌++◌, map, Text, text_key, codes, insert, is_empty, length, drop, ltb, leb,
  contains, find_named, remove_named, change_named, Dict, if◌then◌else◌,
}
use change_of_system.Base.Int.{ℤ, pos_part}
use change_of_system.Alert.Types.{Alert}
use change_of_system.Alert.Manager.{elapsed_ms}
use change_of_system.Security.Types.{SecurityEvent, security_key}
use change_of_system.Webhook.Types.{
  WebhookConfig, WebhookPayload, WebhookResult, WebhookNotifier, Transfer, Outside, severity_key,
}
use change_of_system.Webhook.Payload.{
  alert_payload, security_payload, serialize_payload, signature_text,
}

abbrev pub webhook_name : WebhookConfig → Text
webhook_name w = w.name

unfoldable pub add_webhook : WebhookConfig → WebhookNotifier → WebhookNotifier
add_webhook config s = record s {
  webhooks = remove_named webhook_name config.name s.webhooks ++ config ∷ [];
}

unfoldable pub remove_webhook : Text → WebhookNotifier → WebhookNotifier
remove_webhook name s = record s { webhooks = remove_named webhook_name name s.webhooks }

unfoldable pub enable_webhook : Text → Bool → WebhookNotifier → WebhookNotifier
enable_webhook name enabled s = record s {
  webhooks = change_named webhook_name name (λ w. record w { enabled = enabled }) s.webhooks;
}

unfoldable pub clear_webhooks : WebhookNotifier → WebhookNotifier
clear_webhooks s = record s { webhooks = [] }

unfoldable pub on_result : ℕ → WebhookNotifier → WebhookNotifier
on_result cb s = record s { callbacks = s.callbacks ++ cb ∷ [] }

unfoldable pub get_recent_results : ℕ → WebhookNotifier → List WebhookResult
get_recent_results limit s =
    if leb (length s.results) limit then s.results else drop (length s.results - limit) s.results

abbrev pub should_send_alert : WebhookConfig → Alert → Bool
should_send_alert config alert =
    is_empty config.min_severities || contains config.min_severities alert.severity

abbrev pub should_send_security_event : WebhookConfig → SecurityEvent → Bool
should_send_security_event config event =
    is_empty config.security_event_types || contains config.security_event_types event.type

-- What the locals `http_status` and `error` of `send_webhook` hold, and the answer of `http_post`.
pub record Posted : Type 0 where
  pub success : Bool
  pub http_status : ℕ
  pub error : Text

-- `http_post` in a build with libcurl.
unfoldable pub http_post : Transfer → ℕ → Text → Posted
http_post Transfer.no_handle http_status error = record {
  success = false;
  http_status = http_status;
  error = codes "Failed to initialize CURL";
}
http_post (Transfer.failed message) http_status error = record {
  success = false;
  http_status = 0;
  error = message;
}
http_post (Transfer.answered status) http_status error = record {
  success = leb 200 status && ltb status 300;
  http_status = status;
  error = error;
}

abbrev pub max_results : ℕ
max_results = 1000

unfoldable pub push_result : WebhookResult → List WebhookResult → List WebhookResult
push_result r results =
    let all = results ++ r ∷ [] in
    if ltb max_results (length all) then drop (length all - max_results) all else all

-- The locked block of an attempt.
unfoldable pub record_result : WebhookResult → WebhookNotifier → WebhookNotifier
unfolding push_result
record_result r s = record s {
  results = push_result r s.results;
  total_sent = (s.total_sent + 1) % 2 ^ 64;
  total_success = if r.success then (s.total_success + 1) % 2 ^ 64 else s.total_success;
  total_failed = if r.success then s.total_failed else (s.total_failed + 1) % 2 ^ 64;
  next_result_id = (s.next_result_id + 1) % 2 ^ 64;
  delivered = s.delivered ++ map (λ cb. (cb, r)) s.callbacks;
}

module _ (outside : Outside) where
  unfoldable pub compute_signature : Text → Text → Text
  compute_signature secret body = signature_text (outside.hmac secret body)

  unfoldable pub headers_of : WebhookConfig → Text → Dict Text Text
  unfolding compute_signature
  headers_of config body =
      let signed =
        if is_empty config.secret
        then config.headers
        else insert (codes "X-Signature") (compute_signature config.secret body) config.headers in
      insert (codes "User-Agent") (codes "change-of-system/1.0")
        (insert (codes "Content-Type") (codes "application/json") signed)

  -- The post of an attempt; `total_sent` numbers the requests.
  abbrev pub posted : WebhookConfig → Text → ℕ → Text → WebhookNotifier → Posted
  posted config body http_status error s =
      http_post
        (outside.curl s.total_sent config.url body (headers_of config body) config.timeout_ms)
        http_status error

  abbrev pub result_of : WebhookConfig → Posted → WebhookNotifier → WebhookResult
  result_of config p s = record {
    id = s.next_result_id;
    webhook_name = config.name;
    url = config.url;
    success = p.success;
    http_status = p.http_status;
    error_message = p.error;
    timestamp = outside.behind s.total_sent;
    duration_ms = elapsed_ms (outside.behind s.total_sent) (outside.before s.total_sent);
  }

  -- The loop of `send_webhook` with so many attempts to go.
  unfoldable pub send_attempts :
      ℕ → WebhookConfig → Text → ℕ → Text → WebhookNotifier → Bool × WebhookNotifier
  unfolding http_post record_result headers_of
  send_attempts zero config body http_status error s = (false, s)
  send_attempts (suc n) config body http_status error s =
      let p = posted config body http_status error s in
      let next = record_result (result_of config p s) s in
      let rest = send_attempts n config body p.http_status p.error next in
      if p.success then (true, next) else rest

  abbrev pub send_found :
      Option WebhookConfig → WebhookPayload → WebhookNotifier → Bool × WebhookNotifier
  send_found none payload s = (false, s)
  send_found (some config) payload s =
      let sent =
        send_attempts (pos_part config.retry_count) config (serialize_payload payload) 0 [] s in
      if config.enabled then sent else (false, s)

  unfoldable pub send_webhook : Text → WebhookPayload → WebhookNotifier → Bool × WebhookNotifier
  unfolding send_attempts
  send_webhook name payload s = send_found (find_named webhook_name name s.webhooks) payload s

  -- The loops over a copy of the webhooks: those that `wanted` accepts are sent the payload.
  unfoldable pub send_to :
      (WebhookConfig → Bool)
      → WebhookPayload
      → List WebhookConfig
      → WebhookNotifier
      → WebhookNotifier
  unfolding send_webhook
  send_to wanted payload [] s = s
  send_to wanted payload (w ∷ ws) s =
      send_to wanted payload ws (if wanted w then (send_webhook w.name payload s).1 else s)

  unfoldable pub on_alert : Alert → WebhookNotifier → WebhookNotifier
  unfolding send_to
  on_alert alert s =
      send_to (λ w. w.enabled && w.send_alerts && should_send_alert w alert) (alert_payload alert)
        s.webhooks s

  unfoldable pub on_security_event : SecurityEvent → WebhookNotifier → WebhookNotifier
  unfolding send_to
  on_security_event event s =
      send_to (λ w. w.enabled && w.send_security_events && should_send_security_event w event)
        (security_payload event) s.webhooks s

  unfoldable pub send_all_webhooks : WebhookPayload → WebhookNotifier → WebhookNotifier
  unfolding send_to
  send_all_webhooks payload s = send_to (λ w. w.enabled) payload s.webhooks s
