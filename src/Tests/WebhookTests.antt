-- ===== src/Tests/WebhookTests.antt =====
-- A webhook whose first request fails and whose second one is accepted.
use change_of_system.Base.{
  ℕ, zero, suc, ◌≡◌, refl, true, false, none, List, [], ◌∷◌, codes, text_beq, map, decimal,
  digits_onto, arith,
}
use change_of_system.Base.Int.{pos}
use change_of_system.Webhook.Types.{
  WebhookConfig, WebhookPayload, WebhookNotifier, WebhookResult, Outside, Transfer, new_notifier,
}
use change_of_system.Webhook.Payload.{timestamp_to_iso8601}
use change_of_system.Webhook.Notifier.{send_webhook}
use change_of_system.Webhook.Notifier.Counts.{Call, Counted, called_all, called_all-Counted}
use change_of_system.Webhook.Notifier.Attempts.{outcome, send_webhook-outcome}

abbrev flaky : ℕ → Transfer
flaky zero = Transfer.failed (codes "timeout")
flaky (suc n) = Transfer.answered 200

abbrev outside : Outside
outside = record {
  curl = λ i url body headers timeout. flaky i;
  hmac = λ secret body. none;
  before = λ i. 5000000;
  behind = λ i. 9000000;
}

abbrev hook : WebhookConfig
hook = record {
  name = codes "w";
  url = codes "http://h";
  secret = [];
  headers = [];
  enabled = true;
  timeout_ms = pos 5000;
  retry_count = pos 3;
  retry_delay_ms = pos 1000;
  min_severities = [];
  security_event_types = [];
  send_alerts = true;
  send_security_events = true;
}

abbrev one_hook : WebhookNotifier
one_hook = record new_notifier { webhooks = hook ∷ [] }

abbrev payload : WebhookPayload
payload = record {
  id = codes "1";
  timestamp = [];
  event_type = codes "alert";
  source = [];
  target = [];
  summary = [];
  severity = pos 1;
  details = [];
  signature = [];
}

send_webhook-outcome_example :
    outcome (send_webhook outside (codes "w") payload one_hook) ≡ (true, 2)
unfolding text_beq
send_webhook-outcome_example =
    send_webhook-outcome outside hook payload one_hook refl refl (omega arith)

-- The second result is a success and still has the message of the first one.
stale_message :
    map
      (λ (r : WebhookResult). r.error_message)
      (send_webhook outside (codes "w") payload one_hook).1.results
    ≡ codes "timeout" ∷ codes "timeout" ∷ []
unfolding send_webhook text_beq
stale_message = refl

second_succeeds :
    map
      (λ (r : WebhookResult). r.success)
      (send_webhook outside (codes "w") payload one_hook).1.results
    ≡ false ∷ true ∷ []
unfolding send_webhook text_beq
second_succeeds = refl

new_notifier-Counted : Counted new_notifier
new_notifier-Counted = record { bounded = omega arith; balanced = refl }

abbrev calls : List Call
calls =
    Call.adds hook
    ∷ Call.sends_all payload
    ∷ Call.enables (codes "w") false
    ∷ Call.sends (codes "w") payload
    ∷ []

called_all-Counted_example : Counted (called_all outside calls new_notifier)
called_all-Counted_example = called_all-Counted outside calls new_notifier new_notifier-Counted

-- 1700000000.005 seconds.
milliseconds : timestamp_to_iso8601 1700000000005000000 ≡ codes "2023-11-14T22:13:20.5Z"
unfolding timestamp_to_iso8601 decimal digits_onto
milliseconds = refl
