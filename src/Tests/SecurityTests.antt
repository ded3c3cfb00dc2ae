-- ===== src/Tests/SecurityTests.antt =====
-- The security auditor at concrete events and clock readings.
use change_of_system.Base.{◌≤◌, ◌≡◌, refl, true, [], ◌∷◌, codes, text_key, arith, lookup, inr}
use change_of_system.Event.{Event, type_key, process, process_stopped}
use change_of_system.Security.Types.{
  SecurityRule, SecurityAuditor, SecurityEvent, Readings, SecurityEventType,
}
use change_of_system.Security.Auditor.{is_in_cooldown, is_checked}
use change_of_system.Security.Auditor.Reports.{IsValid}
use change_of_system.Security.Analysis.{is_or_below, finding, process_event}
use change_of_system.Security.Analysis.Reports.{Unnumbered, process_event-Unnumbered}
use change_of_system.Security.Analysis.Matches.{is_or_below-Below}
use change_of_system.Security.Presets.{blank_rule}
use change_of_system.Tests.Data.{shadow_event}

abbrev guard : SecurityRule
guard = record blank_rule { name = codes "guard" }

abbrev guarded : SecurityAuditor
guarded = record {
  rules = guard ∷ [];
  events = [];
  callbacks = 4 ∷ [];
  rule_events = [];
  last_triggered = [];
  next_event_id = 1;
  delivered = [];
}

abbrev triggered : SecurityAuditor
triggered = record guarded { last_triggered = (codes "guard", 1700000000000000000) ∷ [] }

abbrev now : Readings
now = record {
  at_event = 1700000001000000000;
  at_check = 1700000001000000000;
  at_cooldown = λ n. 1700000001000000000;
  at_record = λ n. 1700000001000000000;
}

guarded-IsValid : IsValid guarded
guarded-IsValid = record { bounded = omega arith; rising = tt; started = omega arith }

abbrev intrusion : SecurityEvent
intrusion = (finding now SecurityEventType.root_access shadow_event [] 4 []).1

checked : is_checked guard intrusion now guarded ≡ true
unfolding is_checked is_in_cooldown lookup
checked = refl

process_event-Unnumbered_example :
    IsValid (process_event (λ i. now) shadow_event guarded)
    × Unnumbered (process_event (λ i. now) shadow_event guarded)
    × ((process_event (λ i. now) shadow_event guarded).next_event_id ≤ 3)
process_event-Unnumbered_example =
    process_event-Unnumbered (λ i. now) shadow_event guarded guarded-IsValid tt (omega arith)

is_or_below-Below_example : is_or_below (codes "/etc/passwd") (codes "/etc/passwd/x") ≡ true
is_or_below-Below_example =
    (is_or_below-Below (codes "/etc/passwd") (codes "/etc/passwd/x")).1 (inr (codes "x", refl))

abbrev scanner : Event
scanner = record shadow_event {
  category = process;
  type = process_stopped;
  target = codes "/usr/bin/NMap";
}
