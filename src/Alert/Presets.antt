-- ===== src/Alert/Presets.antt =====
-- The predefined alert rules.
use change_of_system.Base.{true, none, [], ◌∷◌, codes}
use change_of_system.Base.Int.{pos}
use change_of_system.Event.{
  EventCategory, filesystem, network, process_cpu_spike, file_modified, file_deleted,
  network_connection_opened,
}
use change_of_system.Alert.Types.{AlertRule, warning, critical}

module _ {P : Type 0} where
  -- The field initialisers of `struct AlertRule`.
  abbrev pub blank_rule : AlertRule P
  blank_rule = record {
    name = [];
    description = [];
    enabled = true;
    severity = warning;
    categories = [];
    types = [];
    source_pattern = [];
    target_pattern = [];
    summary_pattern = [];
    threshold_count = pos 1;
    threshold_window_ms = pos 60000;
    cooldown_ms = pos 300000;
    custom_condition = none;
    message_template = [];
    compiled_source = none;
    compiled_target = none;
    compiled_summary = none;
  }

  unfoldable pub high_cpu_usage : AlertRule P
  high_cpu_usage = record blank_rule {
    name = codes "high_cpu_usage";
    description = codes "Triggered when a process uses high CPU";
    severity = warning;
    types = process_cpu_spike ∷ [];
    threshold_count = pos 3;
    threshold_window_ms = pos 60000;
    cooldown_ms = pos 300000;
    message_template = codes "High CPU usage detected: {{source}} - {{summary}}";
  }

  unfoldable pub suspicious_process : AlertRule P
  suspicious_process = record blank_rule {
    name = codes "suspicious_process";
    description = codes "Triggered when suspicious process activity is detected";
    severity = critical;
    categories = EventCategory.process ∷ [];
    source_pattern = codes "(nc|netcat|ncat|nmap|wireshark|tcpdump)";
    threshold_count = pos 1;
    cooldown_ms = pos 600000;
    message_template = codes "Suspicious process detected: {{source}}";
  }

  unfoldable pub critical_file_change : AlertRule P
  critical_file_change = record blank_rule {
    name = codes "critical_file_change";
    description = codes "Triggered when critical system files are modified";
    severity = critical;
    types = file_modified ∷ file_deleted ∷ [];
    target_pattern = codes "(/etc/passwd|/etc/shadow|/etc/sudoers|/etc/ssh/sshd_config)";
    threshold_count = pos 1;
    cooldown_ms = pos 60000;
    message_template = codes "Critical file changed: {{target}}";
  }

  unfoldable pub network_anomaly : AlertRule P
  network_anomaly = record blank_rule {
    name = codes "network_anomaly";
    description = codes "Triggered when unusual network activity is detected";
    severity = warning;
    categories = network ∷ [];
    types = network_connection_opened ∷ [];
    threshold_count = pos 50;
    threshold_window_ms = pos 10000;
    cooldown_ms = pos 300000;
    message_template =
        codes "Network anomaly: {{threshold_count}} connections in {{threshold_window_ms}}ms";
  }

  unfoldable pub config_tampering : AlertRule P
  config_tampering = record blank_rule {
    name = codes "config_tampering";
    description = codes "Triggered when system configuration is modified";
    severity = critical;
    categories = EventCategory.system_config ∷ [];
    threshold_count = pos 1;
    cooldown_ms = pos 60000;
    message_template = codes "System configuration changed: {{summary}}";
  }

  unfoldable pub rapid_file_changes : AlertRule P
  rapid_file_changes = record blank_rule {
    name = codes "rapid_file_changes";
    description = codes "Triggered when many file changes occur rapidly";
    severity = warning;
    categories = filesystem ∷ [];
    threshold_count = pos 100;
    threshold_window_ms = pos 5000;
    cooldown_ms = pos 300000;
    message_template =
        codes
          "Rapid file changes detected: {{threshold_count}} changes in {{threshold_window_ms}}ms";
  }
