-- ===== src/Tests/EngineTests.antt =====
-- The engine and a monitor on concrete events.
use change_of_system.Base.{◌≡◌, refl, true, false, some, [], ◌∷◌, Text, codes, arith, All}
use change_of_system.Base.Int.{pos}
use change_of_system.Filter.{empty_filter, process}
use change_of_system.Alert.Manager.{empty_manager}
use change_of_system.Alert.Manager.Returns.{Plain}
use change_of_system.Alert.Message.Termination.{braces}
use change_of_system.Security.Types.{SecurityAuditor}
use change_of_system.Stats.{new_collector}
use change_of_system.Monitor.{Monitor, start, stop}
use change_of_system.Monitor.Lifecycle.{
  Alternates, Reaches-Alternates, here, then_step, starting, stopping,
}
use change_of_system.Engine.{Engine, Readings, start_all, stop_all, route_event}
use change_of_system.Engine.Validity.{IsValid, route_event-IsValid}
use change_of_system.Engine.Routing.{Received, passed, route_all, route_all-Received}
use change_of_system.Engine.Starting.{Idle, start_all-stop_all}
use change_of_system.Tests.Data.{literal, shadow_event}

abbrev quiet : Monitor
quiet = record {
  name = codes "filesystem";
  is_available = true;
  starts_well = true;
  stops_well = true;
  running = false;
  use_native_events = true;
  poll_interval_ms = pos 3000;
  callbacks = [];
  hooks = [];
  delivered = [];
}

Reaches-Alternates_example :
    Alternates false (stop (start quiet).1).1.hooks (stop (start quiet).1).1.running
Reaches-Alternates_example =
    Reaches-Alternates (then_step (then_step here (starting quiet)) (stopping (start quiet).1)) refl
      refl

abbrev auditor : SecurityAuditor
auditor = record {
  rules = [];
  events = [];
  callbacks = [];
  rule_events = [];
  last_triggered = [];
  next_event_id = 1;
  delivered = [];
}

abbrev engine : Engine Text
engine = record {
  monitors = quiet ∷ [];
  event_filter = empty_filter;
  statistics = new_collector 1700000000000000000;
  alert_manager = empty_manager;
  security_auditor = auditor;
  stored = [];
  storage_open = true;
  reporter_enabled = false;
  reporter_running = false;
  enqueued = [];
  watching_config = false;
  callbacks = 1 ∷ [];
  delivered = [];
  recent = [];
  running = false;
}

abbrev now : Readings
now = record {
  at_record = 1700000001000000000;
  at_prune = 1700000001000000000;
  at_rule = λ n. record {
    at_threshold = 1700000001000000000;
    at_cooldown = 1700000001000000000;
    at_trigger = 1700000001000000000;
  };
  at_report = λ i. record {
    at_event = 1700000001000000000;
    at_check = 1700000001000000000;
    at_cooldown = λ n. 1700000001000000000;
    at_record = λ n. 1700000001000000000;
  };
}

engine-IsValid : IsValid engine
engine-IsValid = record {
  filter = record { distinct = tt; sorted = tt; counted = refl };
  alerts = record { bounded = omega arith; rising = tt };
  audits = record { bounded = omega arith; rising = tt; started = omega arith };
  unnumbered = tt;
  bounded = omega arith;
}

shadow-Plain : Plain (process literal shadow_event empty_filter).1
unfolding braces process
shadow-Plain = record { source = refl; target = refl; summary = refl }

route_event-IsValid_example :
    (g' : Engine Text) × (route_event literal 10 now shadow_event engine ≡ some g') × IsValid g'
route_event-IsValid_example =
    route_event-IsValid literal 10 now shadow_event engine engine-IsValid shadow-Plain tt
      (omega arith) (omega arith)

abbrev recording : Engine Text
recording = record engine { storage_open = true }

passed-Plain : All Plain (passed literal ((now, shadow_event) ∷ []) empty_filter)
unfolding braces process
passed-Plain = (record { source = refl; target = refl; summary = refl }, tt)

route_all-Received_example :
    (g' : Engine Text) × (route_all literal 10 ((now, shadow_event) ∷ []) recording ≡ some g')
    × Received literal (passed literal ((now, shadow_event) ∷ []) empty_filter) recording g'
route_all-Received_example =
    route_all-Received literal 10 ((now, shadow_event) ∷ []) recording (omega arith) tt passed-Plain

start_all-stop_all_example :
    All (λ m. m.running ≡ m.is_available) (start_all engine).1.monitors
    × Idle (stop_all (start_all engine).1).1.monitors
    × ((stop_all (start_all engine).1).1.running ≡ false)
    × ((start_all (stop_all (start_all engine).1).1).1.running ≡ true)
    × ((start_all (stop_all (start_all engine).1).1).1.storage_open ≡ false)
start_all-stop_all_example = start_all-stop_all engine refl (refl, tt)
