-- ===== src/Webhook/Notifier/Attempts.antt =====
-- How often a payload is posted.
use change_of_system.Base.{
  ℕ, zero, suc, ◌+◌, ◌^◌, ◌<◌, ◌≡◌, refl, ap, ◌∙◌, Bool, true, false, ◌&&◌, ◌||◌, some, [], Text,
  ltb, leb, arith, if◌then◌else◌, find_named,
}
use change_of_system.Base.Int.{pos_part}
use change_of_system.Webhook.Types.{
  WebhookConfig, WebhookPayload, WebhookNotifier, Outside, Transfer,
}
use change_of_system.Webhook.Payload.{serialize_payload}
use change_of_system.Webhook.Notifier.{
  Posted, http_post, headers_of, record_result, send_attempts, send_found, send_webhook, posted,
  result_of, webhook_name,
}

-- An answer with a status that stands for success.
abbrev pub accepted : Transfer → Bool
accepted Transfer.no_handle = false
accepted (Transfer.failed message) = false
accepted (Transfer.answered status) = leb 200 status && ltb status 300

-- Whether the request with this number is accepted.
abbrev pub accepts : Outside → WebhookConfig → Text → ℕ → Bool
accepts outside config body i =
    accepted (outside.curl i config.url body (headers_of outside config body) config.timeout_ms)

-- Whether one of the `n` requests from `first` on is accepted, and how many are made until then.
abbrev pub any_accepted : (ℕ → Bool) → ℕ → ℕ → Bool
any_accepted ok zero first = false
any_accepted ok (suc n) first = ok first || any_accepted ok n (suc first)

abbrev pub requests : (ℕ → Bool) → ℕ → ℕ → ℕ
requests ok zero first = 0
requests ok (suc n) first = if ok first then 1 else suc (requests ok n (suc first))

http_post-accepted :
    (t : Transfer) (status : ℕ) (error : Text) → (http_post t status error).success ≡ accepted t
unfolding http_post
http_post-accepted Transfer.no_handle status error = refl
http_post-accepted (Transfer.failed message) status error = refl
http_post-accepted (Transfer.answered n) status error = refl

abbrev pub returns : Bool → ℕ → Bool × ℕ
returns sent total = (sent, total)

-- The outcome of sending: what is returned and how many requests have been made.
abbrev pub outcome : Bool × WebhookNotifier → Bool × ℕ
outcome (sent, s) = (sent, s.total_sent)

outcome-if :
    (b : Bool) (x y : Bool × WebhookNotifier)
    → outcome (if b then x else y) ≡ (if b then outcome x else outcome y)
outcome-if true x y = refl
outcome-if false x y = refl

total-record_result :
    (config : WebhookConfig) (outside : Outside) (body : Text) (status : ℕ) (error : Text)
    (s : WebhookNotifier)
    → s.total_sent + 1 < 2 ^ 64
    → (record_result
        (result_of outside config (posted outside config body status error s) s)
        s).total_sent
      ≡ suc s.total_sent
unfolding record_result
total-record_result config outside body status error s room = omega (arith, room)

module _ (outside : Outside) (config : WebhookConfig) (body : Text) where
  abbrev ok : ℕ → Bool
  ok = accepts outside config body

  abbrev expected : ℕ → ℕ → Bool × ℕ
  expected n first = (any_accepted ok n first, first + requests ok n first)

  one_more :
      (b any : Bool) (first more : ℕ)
      → (if b then returns true (suc first) else returns any (suc first + more))
        ≡ returns (b || any) (first + (if b then 1 else suc more))
  one_more true any first more = ap (returns true) (omega arith)
  one_more false any first more = ap (returns any) (omega arith)

  send_attempts-outcome :
      (n : ℕ) (status : ℕ) (error : Text) (s : WebhookNotifier)
      → s.total_sent + n < 2 ^ 64
      → outcome (send_attempts outside n config body status error s) ≡ expected n s.total_sent
  unfolding send_attempts
  send_attempts-outcome zero status error s room = ap (returns false) (omega arith)
  send_attempts-outcome (suc n) status error s room =
      let p : Posted = posted outside config body status error s in
      let next : WebhookNotifier = record_result (result_of outside config p s) s in
      let rest : Bool × WebhookNotifier =
        send_attempts outside n config body p.http_status p.error next in
      let sent : next.total_sent ≡ suc s.total_sent =
        total-record_result config outside body status error s (omega (arith, room)) in
      let later : outcome rest ≡ expected n (suc s.total_sent) =
        send_attempts-outcome n p.http_status p.error next (omega (arith, room, sent))
        ∙ ap (expected n) sent in
      outcome-if p.success (true, next) rest
      ∙ ap (λ b. if b then returns true next.total_sent else outcome rest)
          (http_post-accepted
            (outside.curl s.total_sent config.url body (headers_of outside config body)
              config.timeout_ms)
            status error)
      ∙ ap (λ k. if ok s.total_sent then returns true k else outcome rest) sent
      ∙ ap (λ o. if ok s.total_sent then returns true (suc s.total_sent) else o) later
      ∙ one_more (ok s.total_sent) (any_accepted ok n (suc s.total_sent)) s.total_sent
          (requests ok n (suc s.total_sent))

-- Sending to an enabled webhook returns whether one of its attempts is accepted, and makes requests
-- until one is, as many as the retry count says at most, none if that is not positive. No other
-- webhook in front of it has its name, and the counter of requests does not run over.
pub send_webhook-outcome :
    (outside : Outside) (config : WebhookConfig) (payload : WebhookPayload) (s : WebhookNotifier)
    → find_named webhook_name config.name s.webhooks ≡ some config
    → config.enabled ≡ true
    → s.total_sent + pos_part config.retry_count < 2 ^ 64
    → outcome (send_webhook outside config.name payload s) ≡ (
      any_accepted
          (accepts outside config (serialize_payload payload))
          (pos_part config.retry_count)
          s.total_sent,
      s.total_sent
          + requests
              (accepts outside config (serialize_payload payload))
              (pos_part config.retry_count)
              s.total_sent,
    )
unfolding send_webhook
send_webhook-outcome outside config payload s found on room =
    let sent : Bool × WebhookNotifier =
      send_attempts outside (pos_part config.retry_count) config (serialize_payload payload) 0 []
        s in
    ap (λ o. outcome (send_found outside o payload s)) found
    ∙ ap (λ b. outcome (if b then sent else (false, s))) on
    ∙ send_attempts-outcome outside config (serialize_payload payload) (pos_part config.retry_count)
        0 [] s room
