-- ===== src/Alert/Manager/Outcomes.antt =====
-- What one rule does with an event, on every branch.
use change_of_system.Base.{
  ℕ, ◌+◌, ◌-◌, ◌*◌, ◌%◌, ◌^◌, ◌≡◌, refl, ap, ◌∙◌, inl, inr, Bool, Bool-cases, true, false, not,
  ◌&&◌, Option, some, List, [], ◌∷◌, ◌++◌, map, Text, text_beq, text_key, arith, length, drop,
  select, leb, ltb, value_or, lookup-insert, if◌then◌else◌,
}
use change_of_system.Base.Int.{pos_part, neg_part, leb_ℤ, int_of}
use change_of_system.Event.{Event, Timestamp}
use change_of_system.Regex.{Regex}
use change_of_system.Alert.Types.{Alert, AlertRule, AlertManager, Readings}
use change_of_system.Alert.Message.{format_message, ◌>>=◌}
use change_of_system.Alert.Manager.{
  is_old, is_in_cooldown, track, tracked, with_times, store_alert, trigger_alert, process_rule,
  matches_rule, make_alert, push_alert,
}
use change_of_system.Alert.Manager.Rules.{times_of, last_of}

-- A time is not before `now` less the window.
abbrev pub in_window : {P : Type 0} → AlertRule P → Timestamp → Timestamp → Bool
in_window rule now t =
    leb (now + neg_part rule.threshold_window_ms * 1000000)
      (t + pos_part rule.threshold_window_ms * 1000000)

-- The times of a rule in its window, with the time of the event behind the ones before.
abbrev pub window_times :
    {P : Type 0} → AlertRule P → Timestamp → Event → List Timestamp → List Timestamp
window_times rule now e before = select (in_window rule now) (before ++ e.timestamp ∷ [])

-- The last 10000 alerts.
abbrev pub kept : List Alert → List Alert
kept alerts = drop (length alerts - 10000) alerts

track-window_times :
    {P : Type 0} (rule : AlertRule P) (now : Timestamp) (ts : List Timestamp)
    → select (λ t. not (is_old now rule.threshold_window_ms t)) ts ≡ select (in_window rule now) ts
track-window_times rule now [] = refl
track-window_times rule now (t ∷ ts) = ground (arith, track-window_times rule now ts)

push_alert-kept : (a : Alert) (as_ : List Alert) → push_alert a as_ ≡ kept (as_ ++ a ∷ [])
unfolding push_alert
push_alert-kept a as_ = elim (Bool-cases (ltb 10000 (length (as_ ++ a ∷ [])))) [
  | inl many ↦ rw many refl
  | inr few ↦
      let none_over : 0 ≡ length (as_ ++ a ∷ []) - 10000 = ground (arith, few) in
      rw few (ap (λ n. drop n (as_ ++ a ∷ [])) none_over)
]

module _ (re : Regex) where
  open re use {Pattern}

  module _ (now : Readings) (rule : AlertRule Pattern) (e : Event) (m : AlertManager Pattern) where
    abbrev pub applies : Bool
    applies = rule.enabled && matches_rule re rule e

    abbrev pub times_now : List Timestamp
    times_now = window_times rule now.at_threshold e (value_or [] (times_of rule.name m))

    abbrev pub fires : Bool
    fires =
        applies
        && leb_ℤ rule.threshold_count (int_of (length times_now))
        && not (is_in_cooldown rule.name now.at_cooldown m)

    abbrev pub new_alert : Text → Alert
    new_alert message = record {
      id = m.next_alert_id;
      timestamp = now.at_trigger;
      rule_name = rule.name;
      message = message;
      severity = rule.severity;
      trigger_event = e;
      acknowledged = false;
      metadata = [];
    }

    -- The manager behind the rule, with the message that an alert would have.
    pub record Outcome (message : Text) (m' : AlertManager Pattern) : Type 0 where
      pub times :
          (n : Text)
          → times_of n m'
            ≡ (if applies && text_beq rule.name n then some times_now else times_of n m)
      pub alerts :
          m'.alerts ≡ (if fires then kept (m.alerts ++ new_alert message ∷ []) else m.alerts)
      pub calls : m'.delivered ≡ (
          if fires
          then m.delivered ++ map (λ cb. (cb, new_alert message)) m.callbacks
          else m.delivered)
      pub next_id :
          m'.next_alert_id ≡ (if fires then (m.next_alert_id + 1) % 2 ^ 64 else m.next_alert_id)
      pub rules : m'.rules ≡ m.rules
      pub callbacks : m'.callbacks ≡ m.callbacks
      pub last :
          (n : Text)
          → last_of n m'
            ≡ (if fires && text_beq rule.name n then some now.at_trigger else last_of n m)

    counted : AlertManager Pattern
    counted = with_times rule (tracked rule now e m) m

    tracked-times_now : tracked rule now e m ≡ times_now
    unfolding track
    tracked-times_now =
        track-window_times rule now.at_threshold
          (value_or [] (times_of rule.name m) ++ e.timestamp ∷ [])

    passed_over : (message : Text) → applies ≡ false → Outcome message m
    passed_over message no_ = record {
      times = λ n. rw no_ refl;
      alerts = rw no_ refl;
      calls = rw no_ refl;
      next_id = rw no_ refl;
      rules = refl;
      callbacks = refl;
      last = λ n. rw no_ refl;
    }

    times_counted :
        (n : Text)
        → applies ≡ true
        → times_of n counted
          ≡ (if applies && text_beq rule.name n then some times_now else times_of n m)
    unfolding counted
    times_counted n yes_ =
        lookup-insert n rule.name (tracked rule now e m) m.rule_events
        ∙ rw yes_
            (ap (λ ts. if text_beq rule.name n then some ts else times_of n m) tracked-times_now)

    waits : (message : Text) → applies ≡ true → fires ≡ false → Outcome message counted
    unfolding counted
    waits message yes_ idle = record {
      times = λ n. times_counted n yes_;
      alerts = rw idle refl;
      calls = rw idle refl;
      next_id = rw idle refl;
      rules = refl;
      callbacks = refl;
      last = λ n. rw idle refl;
    }

    raises :
        (message : Text)
        → applies ≡ true
        → fires ≡ true
        → Outcome message (store_alert now.at_trigger message rule e counted)
    unfolding store_alert counted make_alert
    raises message yes_ fire = record {
      times = λ n. times_counted n yes_;
      alerts = rw fire (push_alert-kept (new_alert message) m.alerts);
      calls = rw fire refl;
      next_id = rw fire refl;
      rules = refl;
      callbacks = refl;
      last = λ n. rw fire (lookup-insert n rule.name now.at_trigger m.last_triggered);
    }

    process_rule-fires :
        (fuel : ℕ)
        → applies ≡ true
        → process_rule re fuel now rule e m
          ≡ (if fires then trigger_alert fuel now.at_trigger rule e counted else some counted)
    unfolding process_rule is_in_cooldown counted
    process_rule-fires fuel yes_ = rw yes_ (
        ap
          (λ ts.
            if leb_ℤ rule.threshold_count (int_of (length ts))
              && not (is_in_cooldown rule.name now.at_cooldown m)
            then trigger_alert fuel now.at_trigger rule e counted
            else some counted)
          tracked-times_now)

    -- A rule returns where its message is made. If it applies to the event, the time of the event is
    -- added to its times and those before its window go. If then the times reach the threshold and
    -- the rule is not cooling down, one alert with the next id goes to the history, which keeps the
    -- last 10000, and to each callback, and the next id and the time of the rule's last alert move
    -- on. Nothing else changes, for this rule or another.
    pub process_rule-outcome :
        (fuel : ℕ) (message : Text)
        → format_message fuel rule.message_template e rule ≡ some message
        → (m' : AlertManager Pattern) × (process_rule re fuel now rule e m ≡ some m')
          × Outcome message m'
    unfolding process_rule trigger_alert
    process_rule-outcome fuel message made = elim (Bool-cases applies) [
      | inr no_ ↦ (m, rw no_ refl, passed_over message no_)
      | inl yes_ ↦ elim (Bool-cases fires) [
        | inr idle ↦ (counted, process_rule-fires fuel yes_ ∙ rw idle refl, waits message yes_ idle)
        | inl fire ↦ (
          store_alert now.at_trigger message rule e counted,
          process_rule-fires fuel yes_ ∙ rw fire (ap bind made),
          raises message yes_ fire,
        )
      ]
    ]
      where
        bind : Option Text → Option (AlertManager Pattern)
        bind o = o >>= λ t. some (store_alert now.at_trigger t rule e counted)
