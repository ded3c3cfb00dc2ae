-- ===== src/Security/Analysis.antt =====
-- `process_event` of the auditor: what the analysis of an event of each category reports.
pub mod Reports
pub mod Matches
use change_of_system.Base.{
  ℕ, Bool, true, false, ◌&&◌, ◌||◌, Option, none, some, List, [], ◌∷◌, ◌++◌, Text, text_key,
  nat_key, ◌==◌, codes, lookup, contains, starts_with, has_text, to_lower, length, get_or, nat_beq,
  ltb, value_or, if◌then◌else◌,
}
use change_of_system.Base.Int.{ℤ, pos}
use change_of_system.Event.{
  Event, EventCategory, EventType, type_name, file_permission_changed, process_started, type_key,
}
use change_of_system.Event
use change_of_system.Security.Types
use change_of_system.Security.Types.{
  SecurityEvent, SecurityEventType, SecurityAuditor, Readings, sensitive_file_access, suid_bit_set,
  suspicious_process, root_access, suspicious_outbound, firewall_change, user_created,
}
use change_of_system.Security.Auditor.{report_security_event}

-- A `SecurityEvent` as the analysis fills it, with no id, host or platform, and the readings of the
-- clock while it is reported.
abbrev pub finding :
    Readings → SecurityEventType → Event → Text → ℕ → List (Text × Text) → Readings × SecurityEvent
finding now type event summary severity details = (
  now,
  record {
    id = 0;
    timestamp = now.at_event;
    type = type;
    source = event.source;
    target = event.target;
    summary = summary;
    severity = pos severity;
    details = details;
    host = [];
    platform = [];
  },
)

abbrev pub sensitive_dirs : List Text
sensitive_dirs = codes "/root/" ∷ codes "/.ssh/" ∷ codes "/etc/cron." ∷ []

abbrev pub sensitive_files : List Text
sensitive_files =
    codes "/etc/passwd"
    ∷ codes "/etc/shadow"
    ∷ codes "/etc/sudoers"
    ∷ codes "/etc/ssh/sshd_config"
    ∷ codes "/etc/crontab"
    ∷ codes "/var/log/auth"
    ∷ []

-- `target.size() >= dir.size() && target.compare(0, dir.size(), dir) == 0`.
unfoldable pub in_some_dir : List Text → Text → Bool
in_some_dir [] target = false
in_some_dir (dir ∷ rest) target = starts_with target dir || in_some_dir rest target

-- The file itself, or a path below it.
unfoldable pub is_or_below : Text → Text → Bool
is_or_below file target =
    (target == file)
    || (ltb (length file) (length target)
        && starts_with target file
        && nat_beq (get_or target (length file) 0) b'/')

unfoldable pub is_some_file : List Text → Text → Bool
unfolding is_or_below
is_some_file [] target = false
is_some_file (file ∷ rest) target = is_or_below file target || is_some_file rest target

unfoldable pub is_sensitive : Text → Bool
unfolding in_some_dir is_some_file
is_sensitive target = in_some_dir sensitive_dirs target || is_some_file sensitive_files target

abbrev pub has_suid : Option Text → Bool
has_suid none = false
has_suid (some mode) = has_text mode (codes "SUID")

-- The security events that `analyze_file_event` reports, in order.
unfoldable pub file_findings : (ℕ → Readings) → Event → List (Readings × SecurityEvent)
unfolding is_sensitive
file_findings now event =
    (if is_sensitive event.target
      then finding (now 0) sensitive_file_access event
          (codes "Sensitive file access: " ++ event.target) 3
          ((codes "event_type", type_name event.type)
            ∷ (codes "original_summary", event.summary)
            ∷ [])
        ∷ []
      else [])
    ++ (if (event.type == file_permission_changed)
          && has_suid (lookup (codes "mode") event.attributes)
        then finding (now 1) suid_bit_set event (codes "SUID bit set on file: " ++ event.target) 3
            []
          ∷ []
        else [])

abbrev pub suspicious_names : List Text
suspicious_names =
    codes "nc"
    ∷ codes "ncat"
    ∷ codes "netcat"
    ∷ codes "nc.exe"
    ∷ codes "nmap"
    ∷ codes "masscan"
    ∷ codes "zmap"
    ∷ codes "meterpreter"
    ∷ codes "metasploit"
    ∷ codes "keylogger"
    ∷ codes "sniffer"
    ∷ codes "rootkit"
    ∷ codes "backdoor"
    ∷ []

-- The part behind the last slash, if there is one.
unfoldable pub base_name : Text → Text
base_name [] = []
base_name (c ∷ s) =
    let rest = base_name s in if contains s b'/' then rest else if nat_beq c b'/' then s else c ∷ s

abbrev pub is_root_user : Option Text → Bool
is_root_user none = false
is_root_user (some user) = (user == codes "root") || (user == codes "0")

unfoldable pub process_findings : (ℕ → Readings) → Event → List (Readings × SecurityEvent)
unfolding base_name
process_findings now event =
    let proc_name = to_lower (base_name event.target) in
    (if contains suspicious_names proc_name
      then finding (now 0) suspicious_process event
          (codes "Suspicious process detected: " ++ event.target) 4
          ((codes "matched_pattern", proc_name) ∷ (codes "original_summary", event.summary) ∷ [])
        ∷ []
      else [])
    ++ (if (event.type == process_started) && is_root_user (lookup (codes "user") event.attributes)
        then finding (now 1) root_access event (codes "Process started as root: " ++ event.target) 2
            []
          ∷ []
        else [])

abbrev pub suspicious_ports : List Text
suspicious_ports =
    codes "4444"
    ∷ codes "5555"
    ∷ codes "6666"
    ∷ codes "7777"
    ∷ codes "8888"
    ∷ codes "9999"
    ∷ codes "1234"
    ∷ codes "31337"
    ∷ codes "12345"
    ∷ []

unfoldable pub network_findings : (ℕ → Readings) → Event → List (Readings × SecurityEvent)
network_findings now event = elim (lookup (codes "remote_port") event.attributes) [
  | none ↦ []
  | some port ↦
      if contains suspicious_ports port
      then finding (now 0) suspicious_outbound event
          (codes "Suspicious outbound connection to port " ++ port) 4
          ((codes "port", port)
            ∷ (
              codes "remote_address",
              value_or (codes "unknown") (lookup (codes "remote_addr") event.attributes),
            )
            ∷ [])
        ∷ []
      else []
]

unfoldable pub system_findings : (ℕ → Readings) → Event → List (Readings × SecurityEvent)
system_findings now event =
    (if has_text event.target (codes "iptables")
        || has_text event.target (codes "firewall")
        || has_text event.target (codes "ufw")
        || has_text event.target (codes "firewalld")
      then finding (now 0) firewall_change event
          (codes "Firewall configuration changed: " ++ event.summary) 3 []
        ∷ []
      else [])
    ++ (if has_text event.target (codes "/etc/passwd")
          || has_text event.target (codes "/etc/shadow")
          || has_text event.target (codes "/etc/group")
        then finding (now 1) user_created event (codes "User database modified: " ++ event.summary)
            3 []
          ∷ []
        else [])

unfoldable pub findings : (ℕ → Readings) → Event → EventCategory → List (Readings × SecurityEvent)
unfolding file_findings process_findings network_findings system_findings
findings now event EventCategory.process = process_findings now event
findings now event EventCategory.filesystem = file_findings now event
findings now event EventCategory.network = network_findings now event
findings now event EventCategory.system_config = system_findings now event
findings now event _ = []

-- The reports in order.
unfoldable pub report_all : List (Readings × SecurityEvent) → SecurityAuditor → SecurityAuditor
unfolding report_security_event
report_all [] a = a
report_all ((now, e) ∷ rest) a = report_all rest (report_security_event now e a)

-- `now` gives the readings of the clock for the first and the second report.
unfoldable pub process_event : (ℕ → Readings) → Event → SecurityAuditor → SecurityAuditor
unfolding findings report_all
process_event now event a = report_all (findings now event event.category) a
