-- ===== src/Engine/Validity.antt =====
-- What holds of the engine between two events, and that routing keeps it.
use change_of_system.Base.{
  ℕ, ◌+◌, ◌^◌, ◌≤◌, ◌<◌, ◌≡◌, refl, ap, inl, inr, Bool-cases, Option, some, All, length,
}
use change_of_system.Event.{Event}
use change_of_system.Regex.{Regex}
use change_of_system.Filter.{process}
use change_of_system.Filter.Rules as FilterRules
use change_of_system.Filter.Verdict.{process-IsValid}
use change_of_system.Alert.Types.{AlertManager}
use change_of_system.Alert.Message.{◌>>=◌}
use change_of_system.Alert.Message.Termination.{braces}
use change_of_system.Alert.Manager.Bounds as AlertBounds
use change_of_system.Alert.Manager.Returns.{Plain, process_event-returns}
use change_of_system.Security.Analysis.Reports.{Unnumbered, process_event-Unnumbered}
use change_of_system.Security.Auditor.Reports as AuditReports
use change_of_system.Engine.{Engine, Readings, max_recent_events, routed, route_event}
use change_of_system.Engine.Recent.{push_recent_bound}

-- What holds of the engine's components between two events.
pub record IsValid {P : Type 0} (g : Engine P) : Type 0 where
  pub filter : FilterRules.IsValid g.event_filter
  pub alerts : AlertBounds.IsValid g.alert_manager
  pub audits : AuditReports.IsValid g.security_auditor
  pub unnumbered : Unnumbered g.security_auditor
  pub bounded : length g.recent ≤ max_recent_events

module _ (re : Regex) where
  open re use {Pattern}

  -- An engine whose filter, histories and recent events are in order stays so, and routing returns, if
  -- the event as the filter leaves it has no opening brace in the texts that messages quote, the fuel exceeds the
  -- opening braces of every template, and neither id counter is about to run out.
  pub route_event-IsValid :
      (fuel : ℕ) (now : Readings) (e : Event) (g : Engine Pattern)
      → IsValid g
      → Plain (process re e g.event_filter).1
      → All (λ r. braces r.message_template < fuel) g.alert_manager.rules
      → g.alert_manager.next_alert_id + length g.alert_manager.rules < 2 ^ 64
      → g.security_auditor.next_event_id + 2 < 2 ^ 64
      → (g' : Engine Pattern) × (route_event re fuel now e g ≡ some g') × IsValid g'
  unfolding route_event
  route_event-IsValid fuel now e g v plain enough room room' =
      elim (Bool-cases (process re e g.event_filter).0) [
        | inl allowed ↦
            let (alerts, done, alerts_valid, ids) =
              process_event-returns re fuel now.at_rule e' g.alert_manager v.alerts enough plain
                room in
            let (audits_valid, no_ids, few) =
              process_event-Unnumbered now.at_report e' g.security_auditor v.audits v.unnumbered
                room' in
            (
              routed now e' g1 alerts,
              rw allowed (ap bind done),
              record {
                filter = process-IsValid re e g.event_filter v.filter;
                alerts = alerts_valid;
                audits = audits_valid;
                unnumbered = no_ids;
                bounded = push_recent_bound e' g.recent;
              },
            )
        | inr denied ↦ (
          g1,
          rw denied refl,
          record {
            filter = process-IsValid re e g.event_filter v.filter;
            alerts = v.alerts;
            audits = v.audits;
            unnumbered = v.unnumbered;
            bounded = v.bounded;
          },
        )
      ]
    where
      e' : Event
      e' = (process re e g.event_filter).1

      g1 : Engine Pattern
      g1 = record g { event_filter = (process re e g.event_filter).2 }

      bind : Option (AlertManager Pattern) → Option (Engine Pattern)
      bind o = o >>= λ alerts. some (routed now e' g1 alerts)
