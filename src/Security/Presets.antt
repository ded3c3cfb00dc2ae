-- ===== src/Security/Presets.antt =====
-- The predefined security rules, and the auditor that starts with them.
use change_of_system.Base.{true, none, [], ◌∷◌, codes}
use change_of_system.Base.Int.{pos}
use change_of_system.Security.Types.{
  SecurityEventType, SecurityRule, SecurityAuditor, failed_login, root_access, port_scan,
  suspicious_outbound, user_created, user_deleted, group_membership_change, password_change,
}
use change_of_system.Security.Auditor.{add_rule}

-- The field initialisers of `struct SecurityRule`.
abbrev pub blank_rule : SecurityRule
blank_rule = record {
  name = [];
  description = [];
  enabled = true;
  severity = pos 2;
  event_types = [];
  condition = none;
  threshold_count = pos 1;
  threshold_window_ms = pos 60000;
  cooldown_ms = pos 300000;
}

unfoldable pub failed_login_threshold : SecurityRule
failed_login_threshold = record blank_rule {
  name = codes "failed_login_threshold";
  description = codes "Alert on multiple failed login attempts";
  severity = pos 3;
  event_types = failed_login ∷ [];
  threshold_count = pos 5;
  threshold_window_ms = pos 60000;
  cooldown_ms = pos 300000;
}

unfoldable pub privilege_escalation : SecurityRule
privilege_escalation = record blank_rule {
  name = codes "privilege_escalation";
  description = codes "Alert on privilege escalation events";
  severity = pos 4;
  event_types = SecurityEventType.privilege_escalation ∷ root_access ∷ [];
  threshold_count = pos 1;
  threshold_window_ms = pos 60000;
  cooldown_ms = pos 300000;
}

unfoldable pub sensitive_file_access : SecurityRule
sensitive_file_access = record blank_rule {
  name = codes "sensitive_file_access";
  description = codes "Alert on sensitive file access";
  severity = pos 3;
  event_types = SecurityEventType.sensitive_file_access ∷ [];
  threshold_count = pos 1;
  threshold_window_ms = pos 60000;
  cooldown_ms = pos 300000;
}

unfoldable pub suspicious_process : SecurityRule
suspicious_process = record blank_rule {
  name = codes "suspicious_process";
  description = codes "Alert on suspicious process detection";
  severity = pos 4;
  event_types = SecurityEventType.suspicious_process ∷ [];
  threshold_count = pos 1;
  threshold_window_ms = pos 60000;
  cooldown_ms = pos 300000;
}

unfoldable pub network_anomaly : SecurityRule
network_anomaly = record blank_rule {
  name = codes "network_anomaly";
  description = codes "Alert on network security anomalies";
  severity = pos 3;
  event_types = suspicious_outbound ∷ port_scan ∷ [];
  threshold_count = pos 1;
  threshold_window_ms = pos 60000;
  cooldown_ms = pos 300000;
}

unfoldable pub firewall_change : SecurityRule
firewall_change = record blank_rule {
  name = codes "firewall_change";
  description = codes "Alert on firewall configuration changes";
  severity = pos 3;
  event_types = SecurityEventType.firewall_change ∷ [];
  threshold_count = pos 1;
  threshold_window_ms = pos 60000;
  cooldown_ms = pos 300000;
}

unfoldable pub user_modification : SecurityRule
user_modification = record blank_rule {
  name = codes "user_modification";
  description = codes "Alert on user database modifications";
  severity = pos 3;
  event_types = user_created ∷ user_deleted ∷ group_membership_change ∷ password_change ∷ [];
  threshold_count = pos 1;
  threshold_window_ms = pos 60000;
  cooldown_ms = pos 300000;
}

-- The constructor `SecurityAuditor::SecurityAuditor`.
unfoldable pub new_auditor : SecurityAuditor
new_auditor = add_rule user_modification (
    add_rule firewall_change (
      add_rule network_anomaly (
        add_rule suspicious_process (
          add_rule sensitive_file_access (
            add_rule privilege_escalation (
              add_rule failed_login_threshold (record {
                rules = [];
                events = [];
                callbacks = [];
                rule_events = [];
                last_triggered = [];
                next_event_id = 1;
                delivered = [];
              })))))))
