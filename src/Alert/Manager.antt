-- ===== src/Alert/Manager.antt =====
-- The operations of `AlertManager`. The mutex is not modelled: an operation is one step, and the
-- steps of `process_event` are taken in the order of the source, with the manager passed on.
pub mod Rules
pub mod Bounds
pub mod Triggers
pub mod Outcomes
pub mod Cooldown
pub mod Queries
pub mod Returns
use change_of_system.Base.{
  ℕ, zero, suc, ◌+◌, ◌-◌, ◌*◌, ◌/◌, ◌%◌, ◌^◌, Bool, true, false, not, ◌&&◌, Option, none, some,
  List, [], ◌∷◌, ◌++◌, map, Text, text_key, Dict, lookup, insert, update_at, erase, contains,
  is_empty, length, drop, select, update_first, count_if, nat_beq, ltb, leb, value_or, find_named,
  put_named, remove_named, change_named, if◌then◌else◌,
}
use change_of_system.Base.Int.{ℤ, pos, negsuc, pos_part, neg_part, ltb_ℤ, leb_ℤ, int_of}
use change_of_system.Event.{Event, Timestamp, to_unix_ms, category_key, type_key}
use change_of_system.Regex.{Regex}
use change_of_system.Alert.Types.{Alert, AlertRule, AlertManager, Readings}
use change_of_system.Alert.Message.{format_message, ◌>>=◌}

abbrev pub empty_manager : {P : Type 0} → AlertManager P
empty_manager = record {
  rules = [];
  alerts = [];
  callbacks = [];
  rule_events = [];
  last_triggered = [];
  next_alert_id = 1;
  delivered = [];
}

abbrev pub rule_name : {P : Type 0} → AlertRule P → Text
rule_name r = r.name

module _ (re : Regex) where
  open re use {Pattern, compile}

  -- An invalid pattern is logged and leaves the pointer as it was given.
  abbrev compiled : Text → Option Pattern → Option Pattern
  compiled pattern given =
      if is_empty pattern then given else elim (compile pattern) [ none ↦ given | some p ↦ some p ]

  unfoldable pub compile_rule : AlertRule Pattern → AlertRule Pattern
  compile_rule r = record r {
    compiled_source = compiled r.source_pattern r.compiled_source;
    compiled_target = compiled r.target_pattern r.compiled_target;
    compiled_summary = compiled r.summary_pattern r.compiled_summary;
  }

  unfoldable pub add_rule : AlertRule Pattern → AlertManager Pattern → AlertManager Pattern
  unfolding compile_rule
  add_rule rule m = record m { rules = put_named rule_name (compile_rule rule) m.rules }

  abbrev regex_accepts : Option Pattern → Text → Bool
  regex_accepts none text = true
  regex_accepts (some p) text = re.search text p

  abbrev condition_accepts : Option (Event → Bool) → Event → Bool
  condition_accepts none event = true
  condition_accepts (some f) event = f event

  unfoldable pub matches_rule : AlertRule Pattern → Event → Bool
  matches_rule rule event =
      (if is_empty rule.categories then true else contains rule.categories event.category)
      && (if is_empty rule.types then true else contains rule.types event.type)
      && regex_accepts rule.compiled_source event.source
      && regex_accepts rule.compiled_target event.target
      && regex_accepts rule.compiled_summary event.summary
      && condition_accepts rule.custom_condition event

-- Milliseconds from `past` to `now`, rounded towards zero; negative if the clock went back.
unfoldable pub elapsed_ms : Timestamp → Timestamp → ℤ
elapsed_ms now past =
    if leb past now
    then pos ((now - past) / 1000000)
    else elim ((past - now) / 1000000) [ zero ↦ pos 0 | suc n ↦ negsuc n ]

-- `t < now - milliseconds(window)`, with the window moved to the other side.
abbrev pub is_old : Timestamp → ℤ → Timestamp → Bool
is_old now window t = ltb (t + pos_part window * 1000000) (now + neg_part window * 1000000)

abbrev pub max_alerts : ℕ
max_alerts = 10000

-- The alerts after one more, with the oldest beyond the limit gone.
unfoldable pub push_alert : Alert → List Alert → List Alert
push_alert a alerts =
    let all = alerts ++ a ∷ [] in
    if ltb max_alerts (length all) then drop (length all - max_alerts) all else all

-- Bounds that are not positive are no bounds.
unfoldable pub in_range : ℤ → ℤ → ℕ → Bool
in_range from_ms to_ms ts =
    not (ltb_ℤ (pos 0) from_ms && ltb_ℤ (pos ts) from_ms)
    && not (ltb_ℤ (pos 0) to_ms && ltb_ℤ to_ms (pos ts))

module _ {P : Type 0} where
  unfoldable pub remove_rule : Text → AlertManager P → AlertManager P
  remove_rule name m = record m {
    rules = remove_named rule_name name m.rules;
    rule_events = erase name m.rule_events;
    last_triggered = erase name m.last_triggered;
  }

  abbrev pub set_enabled : Bool → AlertRule P → AlertRule P
  set_enabled enabled r = record r { enabled = enabled }

  unfoldable pub enable_rule : Text → Bool → AlertManager P → AlertManager P
  enable_rule name enabled m = record m {
    rules = change_named rule_name name (set_enabled enabled) m.rules;
  }

  unfoldable pub clear_rules : AlertManager P → AlertManager P
  clear_rules m = record m { rules = []; rule_events = []; last_triggered = [] }

  unfoldable pub on_alert : ℕ → AlertManager P → AlertManager P
  on_alert cb m = record m { callbacks = m.callbacks ++ cb ∷ [] }

  unfoldable pub is_in_cooldown : Text → Timestamp → AlertManager P → Bool
  is_in_cooldown name now m = elim (lookup name m.last_triggered) [
    | none ↦ false
    | some last ↦ elim (find_named rule_name name m.rules) [
      | none ↦ false
      | some rule ↦ ltb_ℤ (elapsed_ms now last) rule.cooldown_ms
    ]
  ]

  -- The times that count for a rule after an event at `time`: the event's, and the old ones gone.
  unfoldable pub track : AlertRule P → Timestamp → Timestamp → List Timestamp → List Timestamp
  track rule now time times =
      select (λ t. not (is_old now rule.threshold_window_ms t)) (times ++ time ∷ [])

  unfoldable pub make_alert : ℕ → Timestamp → Text → AlertRule P → Event → Alert
  make_alert id now message rule event = record {
    id = id;
    timestamp = now;
    rule_name = rule.name;
    message = message;
    severity = rule.severity;
    trigger_event = event;
    acknowledged = false;
    metadata = [];
  }

  -- The part of `trigger_alert` under the lock, and the calls of the callbacks; what these throw is
  -- caught.
  unfoldable pub store_alert :
      Timestamp → Text → AlertRule P → Event → AlertManager P → AlertManager P
  unfolding push_alert make_alert
  store_alert now message rule event m =
      let alert = make_alert m.next_alert_id now message rule event in
      record m {
        next_alert_id = (m.next_alert_id + 1) % 2 ^ 64;
        alerts = push_alert alert m.alerts;
        last_triggered = insert rule.name now m.last_triggered;
        delivered = m.delivered ++ map (λ cb. (cb, alert)) m.callbacks;
      }

  -- `none`: a loop of `format_message` has not ended within the fuel.
  unfoldable pub trigger_alert :
      ℕ → Timestamp → AlertRule P → Event → AlertManager P → Option (AlertManager P)
  unfolding store_alert
  trigger_alert fuel now rule event m = do
    message ← format_message fuel rule.message_template event rule
    some (store_alert now message rule event m)

  -- The times of the rule after the event, as `rule_events_` holds them.
  abbrev pub tracked : AlertRule P → Readings → Event → AlertManager P → List Timestamp
  tracked rule now event m =
      track rule now.at_threshold event.timestamp (value_or [] (lookup rule.name m.rule_events))

  abbrev pub with_times : AlertRule P → List Timestamp → AlertManager P → AlertManager P
  with_times rule times m = record m { rule_events = insert rule.name times m.rule_events }

module _ (re : Regex) where
  open re use {Pattern}

  -- The body of the loop of `process_event` for one rule of the copy. The source takes the lock anew
  -- for each of its steps; that no other call comes in between is assumed here.
  unfoldable pub process_rule :
      ℕ
      → Readings
      → AlertRule Pattern
      → Event
      → AlertManager Pattern
      → Option (AlertManager Pattern)
  process_rule fuel now rule event m =
      if rule.enabled && matches_rule re rule event
      then (let times = tracked rule now event m in
          let m' = with_times rule times m in
          if leb_ℤ rule.threshold_count (int_of (length times))
            && not (is_in_cooldown rule.name now.at_cooldown m')
          then trigger_alert fuel now.at_trigger rule event m'
          else some m')
      else some m

  -- `now` gives the readings of the clock while the rule of that name is processed.
  unfoldable pub process_rules :
      ℕ
      → (Text → Readings)
      → List (AlertRule Pattern)
      → Event
      → AlertManager Pattern
      → Option (AlertManager Pattern)
  process_rules fuel now [] event m = some m
  process_rules fuel now (rule ∷ rest) event m =
      process_rule fuel (now rule.name) rule event m >>= process_rules fuel now rest event

  unfoldable pub process_event :
      ℕ → (Text → Readings) → Event → AlertManager Pattern → Option (AlertManager Pattern)
  unfolding process_rules
  process_event fuel now event m = process_rules fuel now m.rules event m

module _ {P : Type 0} where
  unfoldable pub get_active_alerts : AlertManager P → List Alert
  get_active_alerts m = select (λ a. not a.acknowledged) m.alerts

  unfoldable pub get_alerts : ℤ → ℤ → AlertManager P → List Alert
  unfolding in_range to_unix_ms
  get_alerts from_ms to_ms m =
      select (λ a. in_range from_ms to_ms (to_unix_ms a.timestamp)) m.alerts

  unfoldable pub acknowledge_alert : ℕ → AlertManager P → AlertManager P
  acknowledge_alert id m = record m {
    alerts = update_first (λ a. nat_beq a.id id) (λ a. record a { acknowledged = true }) m.alerts;
  }

  unfoldable pub clear_alerts : AlertManager P → AlertManager P
  clear_alerts m = record m { alerts = [] }

  unfoldable pub total_alerts : AlertManager P → ℕ
  total_alerts m = length m.alerts

  unfoldable pub active_alerts_count : AlertManager P → ℕ
  active_alerts_count m = count_if (λ a. not a.acknowledged) m.alerts
