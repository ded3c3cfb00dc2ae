-- ===== src/Webhook/Notifier/Counts.antt =====
-- The counters and the history of results under any calls.
use change_of_system.Base.{
  ℕ, zero, suc, ◌+◌, ◌-◌, ◌%◌, ◌^◌, ◌≤◌, ◌≡◌, Bool, true, false, Option, none, some, List, [], ◌∷◌,
  ◌++◌, Text, length, length-drop, arith, Bool-cases, inl, inr, if◌then◌else◌, find_named,
}
use change_of_system.Base.Int.{pos_part}
use change_of_system.Alert.Types.{Alert}
use change_of_system.Security.Types.{SecurityEvent}
use change_of_system.Webhook.Types.{
  WebhookConfig, WebhookPayload, WebhookResult, WebhookNotifier, Outside,
}
use change_of_system.Webhook.Payload.{serialize_payload}
use change_of_system.Webhook.Notifier.{
  add_webhook, remove_webhook, enable_webhook, clear_webhooks, on_result, push_result,
  record_result, max_results, send_attempts, send_found, send_webhook, send_to, on_alert,
  on_security_event, send_all_webhooks, posted, result_of, webhook_name,
}

-- No more results than the history holds, and every request is counted once more as a success or a
-- failure, up to the wrap-around of the counters.
pub record Counted (s : WebhookNotifier) : Type 0 where
  pub bounded : length s.results ≤ max_results
  pub balanced : s.total_sent ≡ (s.total_success + s.total_failed) % 2 ^ 64

pub data Call : Type 0 where
  adds : WebhookConfig → Call
  removes : Text → Call
  enables : Text → Bool → Call
  clears : Call
  registers : ℕ → Call
  alerts : Alert → Call
  reports : SecurityEvent → Call
  sends : Text → WebhookPayload → Call
  sends_all : WebhookPayload → Call

abbrev pub called : Outside → Call → WebhookNotifier → WebhookNotifier
called outside (adds config) s = add_webhook config s
called outside (removes name) s = remove_webhook name s
called outside (enables name enabled) s = enable_webhook name enabled s
called outside clears s = clear_webhooks s
called outside (registers cb) s = on_result cb s
called outside (alerts alert) s = on_alert outside alert s
called outside (reports event) s = on_security_event outside event s
called outside (sends name payload) s = (send_webhook outside name payload s).1
called outside (sends_all payload) s = send_all_webhooks outside payload s

abbrev pub called_all : Outside → List Call → WebhookNotifier → WebhookNotifier
called_all outside [] s = s
called_all outside (c ∷ cs) s = called_all outside cs (called outside c s)

push_result_bound :
    (r : WebhookResult) (rs : List WebhookResult) → length (push_result r rs) ≤ max_results
unfolding push_result
push_result_bound r rs =
    ground (arith, length-drop (length (rs ++ r ∷ []) - max_results) (rs ++ r ∷ []))

record_result-Counted :
    (r : WebhookResult) (s : WebhookNotifier) → Counted s → Counted (record_result r s)
unfolding record_result
record_result-Counted r s h = record {
  bounded = push_result_bound r s.results;
  balanced = counts r.success;
}
  where
    counts :
        (ok : Bool)
        → (s.total_sent + 1) % 2 ^ 64
          ≡ ((if ok then (s.total_success + 1) % 2 ^ 64 else s.total_success)
              + (if ok then s.total_failed else (s.total_failed + 1) % 2 ^ 64))
            % 2 ^ 64
    counts true = omega (arith, h.balanced)
    counts false = omega (arith, h.balanced)

if-Counted :
    (b : Bool) (x y : Bool × WebhookNotifier)
    → Counted x.1
    → Counted y.1
    → Counted (if b then x else y).1
if-Counted true x y h k = h
if-Counted false x y h k = k

module _ (outside : Outside) where
  send_attempts-Counted :
      (n : ℕ) (config : WebhookConfig) (body : Text) (status : ℕ) (error : Text)
      (s : WebhookNotifier)
      → Counted s
      → Counted (send_attempts outside n config body status error s).1
  unfolding send_attempts
  send_attempts-Counted zero config body status error s h = h
  send_attempts-Counted (suc n) config body status error s h =
      let next : WebhookNotifier =
        record_result (result_of outside config (posted outside config body status error s) s) s in
      let after : Counted next = record_result-Counted _ s h in
      if-Counted (posted outside config body status error s).success (true, next) _ after
        (send_attempts-Counted n config body _ _ next after)

  send_found-Counted :
      (found : Option WebhookConfig) (payload : WebhookPayload) (s : WebhookNotifier)
      → Counted s
      → Counted (send_found outside found payload s).1
  send_found-Counted none payload s h = h
  send_found-Counted (some config) payload s h =
      if-Counted config.enabled _ (false, s)
        (send_attempts-Counted (pos_part config.retry_count) config (serialize_payload payload) 0 []
          s h)
        h

  send_webhook-Counted :
      (name : Text) (payload : WebhookPayload) (s : WebhookNotifier)
      → Counted s
      → Counted (send_webhook outside name payload s).1
  unfolding send_webhook
  send_webhook-Counted name payload s h =
      send_found-Counted (find_named webhook_name name s.webhooks) payload s h

  send_to-Counted :
      (wanted : WebhookConfig → Bool) (payload : WebhookPayload) (ws : List WebhookConfig)
      (s : WebhookNotifier)
      → Counted s
      → Counted (send_to outside wanted payload ws s)
  unfolding send_to
  send_to-Counted wanted payload [] s h = h
  send_to-Counted wanted payload (w ∷ ws) s h = elim (Bool-cases (wanted w)) [
    | inl yes' ↦
        rw yes' (send_to-Counted wanted payload ws _ (send_webhook-Counted w.name payload s h))
    | inr no' ↦ rw no' (send_to-Counted wanted payload ws s h)
  ]

  called-Counted : (c : Call) (s : WebhookNotifier) → Counted s → Counted (called outside c s)
  unfolding add_webhook remove_webhook enable_webhook clear_webhooks on_result on_alert
      on_security_event send_all_webhooks
  called-Counted (adds config) s h = record { bounded = h.bounded; balanced = h.balanced }
  called-Counted (removes name) s h = record { bounded = h.bounded; balanced = h.balanced }
  called-Counted (enables name enabled) s h = record { bounded = h.bounded; balanced = h.balanced }
  called-Counted clears s h = record { bounded = h.bounded; balanced = h.balanced }
  called-Counted (registers cb) s h = record { bounded = h.bounded; balanced = h.balanced }
  called-Counted (alerts alert) s h = send_to-Counted _ _ s.webhooks s h
  called-Counted (reports event) s h = send_to-Counted _ _ s.webhooks s h
  called-Counted (sends name payload) s h = send_webhook-Counted name payload s h
  called-Counted (sends_all payload) s h = send_to-Counted _ _ s.webhooks s h

  -- Under any calls the notifier keeps at most 1000 results and counts every request as a success or
  -- a failure, up to the wrap-around of its counters, where it did so before.
  pub called_all-Counted :
      (cs : List Call) (s : WebhookNotifier) → Counted s → Counted (called_all outside cs s)
  called_all-Counted [] s h = h
  called_all-Counted (c ∷ cs) s h =
      called_all-Counted cs (called outside c s) (called-Counted c s h)
