-- ===== src/Engine.antt =====
-- src/core/monitor_engine.h and src/core/monitor_engine.cpp: the engine after `initialize`, with every
-- component there. The storage, the reporter and the watcher of the configuration are other
-- components: what the engine has them do is recorded.
pub mod Recent
pub mod Validity
pub mod Routing
pub mod Starting
use change_of_system.Base.{
  ℕ, ◌+◌, ◌-◌, ◌<◌, Bool, true, false, Option, none, some, List, [], ◌∷◌, ◌++◌, Text, map, length,
  drop, ltb, if◌then◌else◌,
}
use change_of_system.Base.Int.{ℤ, pos, negsuc}
use change_of_system.Event.{Event, Timestamp}
use change_of_system.Regex.{Regex}
use change_of_system.Filter as Filters
use change_of_system.Filter.{EventFilter}
use change_of_system.Stats.{StatisticsCollector, record_event}
use change_of_system.Alert.Types as AlertTypes
use change_of_system.Alert.Types.{AlertManager}
use change_of_system.Alert.Message.{◌>>=◌}
use change_of_system.Alert.Manager as Alerts
use change_of_system.Security.Types as SecurityTypes
use change_of_system.Security.Types.{SecurityAuditor}
use change_of_system.Security.Analysis as Audits
use change_of_system.Monitor as Monitors
use change_of_system.Monitor.{Monitor}

-- The monitors stand in the order in which the engine starts and stops them.
pub record Engine (P : Type 0) : Type 0 where
  pub monitors : List Monitor
  pub event_filter : EventFilter
  pub statistics : StatisticsCollector
  pub alert_manager : AlertManager P
  pub security_auditor : SecurityAuditor
  pub stored : List Event
  pub storage_open : Bool
  pub reporter_enabled : Bool
  pub reporter_running : Bool
  pub enqueued : List Event
  pub watching_config : Bool
  pub callbacks : List ℕ
  pub delivered : List (ℕ × Event)
  pub recent : List Event
  pub running : Bool

abbrev pub max_recent_events : ℕ
max_recent_events = 5000

-- `push_back`, then `pop_front` while there are too many.
unfoldable pub push_recent : Event → List Event → List Event
push_recent e recent = let all = recent ++ e ∷ [] in drop (length all - max_recent_events) all

-- The readings of the clock that the components take for one event.
pub record Readings : Type 0 where
  pub at_record : Timestamp
  pub at_prune : Timestamp
  pub at_rule : Text → AlertTypes.Readings
  pub at_report : ℕ → SecurityTypes.Readings

-- What is done with an event that the filter lets through, the alerts apart.
abbrev pub routed : {P : Type 0} → Readings → Event → Engine P → AlertManager P → Engine P
routed now event g alerts = record g {
  statistics = record_event now.at_record now.at_prune event g.statistics;
  alert_manager = alerts;
  security_auditor = Audits.process_event now.at_report event g.security_auditor;
  stored = if g.storage_open then g.stored ++ event ∷ [] else g.stored;
  enqueued = if g.reporter_enabled then g.enqueued ++ event ∷ [] else g.enqueued;
  recent = push_recent event g.recent;
  delivered = g.delivered ++ map (λ cb. (cb, event)) g.callbacks;
}

module _ (re : Regex) where
  open re use {Pattern}

  -- `none`: the message of an alert is not complete within the fuel.
  unfoldable pub route_event : ℕ → Readings → Event → Engine Pattern → Option (Engine Pattern)
  route_event fuel now event g =
      let (allowed, filtered_event, event_filter) = Filters.process re event g.event_filter in
      let g' = record g { event_filter = event_filter } in
      if allowed
      then (Alerts.process_event re fuel now.at_rule filtered_event g.alert_manager >>= λ alerts.
          some (routed now filtered_event g' alerts))
      else some g'

unfoldable pub start_monitors : List Monitor → List Monitor
start_monitors [] = []
start_monitors (m ∷ rest) =
    (if m.is_available then (Monitors.start m).1 else m) ∷ start_monitors rest

unfoldable pub stop_monitors : List Monitor → List Monitor
stop_monitors [] = []
stop_monitors (m ∷ rest) = (Monitors.stop m).1 ∷ stop_monitors rest

module _ {P : Type 0} where
  unfoldable pub on_event : ℕ → Engine P → Engine P
  on_event cb g = record g { callbacks = g.callbacks ++ cb ∷ [] }

  -- `limit` is an `int`; below 0 the source goes past the end of the deque, which has no meaning.
  unfoldable pub recent_events : ℕ → Engine P → List Event
  recent_events limit g = drop (length g.recent - limit) g.recent

  unfoldable pub start_all : Engine P → Bool × Engine P
  start_all g = if g.running then (false, g) else (
    true,
    record g { running = true; monitors = start_monitors g.monitors; reporter_running = true },
  )

  unfoldable pub stop_all : Engine P → Bool × Engine P
  stop_all g =
      if g.running
      then (
        true,
        record g {
          running = false;
          monitors = stop_monitors g.monitors;
          reporter_running = false;
          watching_config = false;
          storage_open = false;
        },
      )
      else (false, g)
