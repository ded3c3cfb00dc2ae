-- ===== src/Tests/AlertTests.antt =====
-- The alert manager at concrete rules, events and clock readings.
use change_of_system.Base.{
  ◌≤◌, ◌≡◌, refl, true, none, some, [], ◌∷◌, ◌++◌, Text, codes, text_key, text_beq, ◌&&◌, arith,
  find_text, contains, lookup, insert, decimal,
}
use change_of_system.Base.Int.{to_string, pos, int_of}
use change_of_system.Event.{Event, filesystem, EventCategory-discrete, category_name, type_name}
use change_of_system.Alert.Types.{AlertRule, AlertManager, Readings}
use change_of_system.Alert.Message.{format_message, replace_all, replace_at}
use change_of_system.Alert.Message.Termination.{braces, Filled, format_message-Filled}
use change_of_system.Alert.Message.Divergence.{format_message-diverges, format_message-eats_byte}
use change_of_system.Alert.Manager.{
  empty_manager, process_event, process_rule, matches_rule, tracked, track, store_alert,
  is_in_cooldown, elapsed_ms, trigger_alert,
}
use change_of_system.Alert.Manager.Rules.{last_of}
use change_of_system.Alert.Manager.Bounds.{IsValid, process_event-IsValid}
use change_of_system.Alert.Manager.Returns.{Plain, process_event-returns}
use change_of_system.Alert.Manager.Outcomes.{Outcome, process_rule-outcome}
use change_of_system.Alert.Manager.Cooldown.{process_all, calls_of, process_all-cooldown}
use change_of_system.Alert.Presets.{blank_rule, network_anomaly}
use change_of_system.Tests.Data.{literal, shadow_event}

abbrev watch : AlertRule Text
watch = record blank_rule {
  name = codes "watch";
  categories = filesystem ∷ [];
  message_template = codes "Saw {{source}}";
}

abbrev now : Readings
now = record {
  at_threshold = 1700000001000000000;
  at_cooldown = 1700000001000000000;
  at_trigger = 1700000001000000000;
}

abbrev soon : Readings
soon = record {
  at_threshold = 1700000002000000000;
  at_cooldown = 1700000002000000000;
  at_trigger = 1700000002000000000;
}

abbrev watching : AlertManager Text
watching = record empty_manager { rules = watch ∷ []; callbacks = 7 ∷ [] }

watching-IsValid : IsValid watching
watching-IsValid = record { bounded = omega arith; rising = tt }

abbrev message : Text
message = codes "Saw vim"

formatted : format_message 10 watch.message_template shadow_event watch ≡ some message
unfolding format_message replace_all replace_at find_text category_name type_name
formatted = refl

abbrev anomaly : AlertRule Text
anomaly = network_anomaly

-- The preset's message as it comes out: the width of its placeholders is one too many.
anomaly_message :
    format_message {Pattern = Text} 10 anomaly.message_template shadow_event anomaly
    ≡ some (codes "Network anomaly: 50connections in 10000s")
unfolding format_message replace_all replace_at find_text category_name type_name network_anomaly
    to_string decimal
anomaly_message = refl

format_message-Filled_example :
    Filled 2 (format_message 10 watch.message_template shadow_event watch)
unfolding braces
format_message-Filled_example =
    format_message-Filled 10 watch.message_template shadow_event watch (omega arith) refl refl refl

abbrev hostile : Event
hostile = record shadow_event { source = codes "{{source}}" }

format_message-diverges_example : format_message 1000 watch.message_template hostile watch ≡ none
unfolding find_text
format_message-diverges_example =
    format_message-diverges 1000 watch.message_template hostile watch (0, refl) (4, refl)

format_message-eats_byte_example :
    format_message 10 (codes "{{threshold_count}} events") shadow_event watch
    ≡ some (to_string (pos 1) ++ codes "events")
unfolding braces
format_message-eats_byte_example =
    format_message-eats_byte b' ' (codes "events") refl 9 shadow_event watch

abbrev alerted : AlertManager Text
alerted = store_alert now.at_trigger message watch shadow_event watching

entered : (watch.enabled && matches_rule literal watch shadow_event) ≡ true
unfolding matches_rule contains EventCategory-discrete
entered = refl

reached : tracked watch now shadow_event watching ≡ 1700000000000000000 ∷ []
unfolding track lookup
reached = refl

process_rule-outcome_example :
    (m' : AlertManager Text) × (process_rule literal 10 now watch shadow_event watching ≡ some m')
    × Outcome literal now watch shadow_event watching message m'
process_rule-outcome_example =
    process_rule-outcome literal now watch shadow_event watching 10 message formatted

abbrev after_event : AlertManager Text
after_event = record alerted { rule_events = (codes "watch", 1700000000000000000 ∷ []) ∷ [] }

event_processed : process_event literal 10 (λ n. now) shadow_event watching ≡ some after_event
unfolding process_event process_rule trigger_alert is_in_cooldown lookup insert track matches_rule
    contains format_message replace_all replace_at find_text EventCategory-discrete category_name
    type_name int_of
event_processed = refl

after_event-IsValid : IsValid after_event × (after_event.next_alert_id ≤ 2)
after_event-IsValid =
    process_event-IsValid literal 10 (λ n. now) shadow_event watching after_event watching-IsValid
      (omega arith) event_processed

shadow-Plain : Plain shadow_event
unfolding braces
shadow-Plain = record { source = refl; target = refl; summary = refl }

few_braces : braces watch.message_template ≡ 2
unfolding braces
few_braces = refl

process_event-returns_example :
    (m' : AlertManager Text) × (process_event literal 10 (λ n. now) shadow_event watching ≡ some m')
    × IsValid m'
    × (m'.next_alert_id ≤ 2)
process_event-returns_example =
    process_event-returns literal 10 (λ n. now) shadow_event watching watching-IsValid
      (omega (arith, few_braces), tt) shadow-Plain (omega arith)

-- The second event inside the cooldown: it is counted, and raises no alert.
abbrev after_second : AlertManager Text
after_second = record alerted { rule_events = (codes "watch", 1700000000000000000 ∷ []) ∷ [] }

process_all-cooldown_example :
    (m' : AlertManager Text) × (process_all literal 10
        (codes "watch")
        now.at_trigger
        watch
        ((λ n. soon, shadow_event) ∷ [])
        alerted
      ≡ some m')
    × (calls_of (codes "watch") m' ≡ calls_of (codes "watch") alerted)
    × (last_of (codes "watch") m' ≡ some now.at_trigger)
unfolding store_alert lookup insert text_beq elapsed_ms braces
process_all-cooldown_example =
    process_all-cooldown literal 10 (codes "watch") now.at_trigger watch
      ((λ n. soon, shadow_event) ∷ []) alerted refl refl (omega arith, tt)
      ((refl, record { source = refl; target = refl; summary = refl }), tt)
