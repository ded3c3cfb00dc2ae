-- ===== src/Lib.antt =====
-- Verification of change-of-system, a program that watches a computer for changes. Monitors emit
-- events; the engine passes each event through the filter and, if it is let through, to the
-- statistics, the alert manager, the security auditor, the storage, the reporter, the list of recent
-- events and the callbacks. Alerts and security events go to callbacks of their own. The settings
-- come from a store that is read from a file.
--
-- The files and the code they model (paths from the root of the repository):
--   Event, Event/Names        src/core/event.h, event.cpp: the event, its enumerations, their names
--   Regex                     std::regex as a parameter: compile and search
--   Filter, Filter/*          src/filter/event_filter.h, event_filter.cpp: `EventFilter` and its rules
--   Alert/Types, Alert/Message, Alert/Manager, Alert/Presets
--                             src/alert/alert_manager.h, alert_manager.cpp: `AlertManager`, the
--                             messages of alerts, the predefined rules
--   Security/Types, Security/Auditor, Security/Analysis, Security/Presets
--                             src/security/security_auditor.h, security_auditor.cpp:
--                             `SecurityAuditor`, the `analyze_*` functions, the predefined rules
--   Config/Codec, Config/Store
--                             src/config/config_store.h, config_store.cpp: `ConfigStore` and the
--                             form of its file
--   Stats                     src/stats/statistics.h, statistics.cpp: `StatisticsCollector`
--   Storage/Codec, Storage/Disk, Storage/File
--                             src/storage/storage.h, storage.cpp: the line of an event, the files and
--                             streams, `FileStorage`
--   Json                      the JSON escapes of reporter.cpp and webhook_notifier.cpp
--   Reporting                 src/reporting/reporter.h, reporter.cpp: `Reporter`
--   Webhook/Types, Webhook/Payload, Webhook/Notifier
--                             src/webhook/webhook_notifier.h, webhook_notifier.cpp: `WebhookNotifier`
--   Query                     src/query/event_query.h, event_query.cpp: `EventQuery`
--   Updater                   src/updater/updater.h, updater.cpp: the check for an update
--   Validate/Keys, Validate/Values, Validate/Checks, Validate/Validator
--                             src/validate/config_validator.h, config_validator.cpp:
--                             `ConfigValidator::validate`
--   Monitors/Changes          the comparison of two scans that the polling monitors share
--   Monitors/Environment, Monitors/Packages, Monitors/Processes,
--   Monitors/Network, Monitors/Words
--                             src/monitor/environment/environment_monitor.h and .cpp,
--                             src/monitor/package/package_monitor.h and .cpp,
--                             src/monitor/process/process_monitor.h and .cpp,
--                             src/monitor/network/network_monitor.h and .cpp
--   Monitor                   src/core/monitor.h, monitor.cpp: the base class `Monitor`
--   Engine                    src/core/monitor_engine.h, monitor_engine.cpp: `MonitorEngine`
-- The files below these hold the proofs, named for what they prove. Base has the shared names, lists,
-- maps, texts and integers; Tests has inputs at which the theorems apply.
--
-- How the code is read. A class is a record of its fields and an operation a function to the new
-- record; names are those of the source. Texts are lists of bytes. `std::map` is an association list
-- in the order of the keys, `std::sort` an insertion sort that keeps the order of equal elements,
-- which the source leaves open. 64-bit counters wrap around (`% 2 ^ 64`); `int` settings are the
-- integers of Base/Int, and a size that is cast to `int` keeps its low 32 bits. Times are natural numbers of nanoseconds, so every clock reading and every
-- stored time is after the epoch; what an operation reads from the clock is a parameter. A callback
-- is a number, and the calls made to it are a field of the record. Mutexes are left out, since each
-- operation runs under its class's lock: an operation is one step. The statistics keep theirs as a
-- flag, because one operation takes it twice.
--
-- Fuel. `format_message` replaces placeholders until none is left, which need not end: it takes fuel
-- for each of its loops and gives `none` when that runs out, and so do the operations that call it
-- (`trigger_alert`, `process_event`, `route_event`). For an event whose texts hold no opening brace,
-- one more than the opening braces of the template is enough; for one that quotes a placeholder no
-- fuel is.
--
-- The storage works on a map from names to contents that stands for the file system: a file is
-- opened if its name may be written, a rename fails only without a source, and writing always
-- succeeds on a stream without error flags. libcurl and the HMAC of OpenSSL are parameters, with the
-- requests numbered; the notifier and the updater are those of a build with libcurl, the updater's of
-- one without nlohmann/json. `double` in the validator is a record of the operations that it calls.
-- What is printed is a text that is returned, and local time is a parameter.
--
-- What is not modelled: `get_double` of the settings and the rates of the statistics, the time series
-- and the JSON texts of the statistics, log lines, threads; `initialize` of the engine beyond the
-- default filter; the printed report of the validator, the question of the updater and its call of
-- git; exports, reports, snapshots and their comparison, the diagnostic run, the tail of files and
-- the watcher of the configuration; the derived monitors but those four, and what `ProcessMonitor`
-- reads from /proc; the platform detection, the daemon and the graphical window, which are calls of
-- the operating system or Qt.
pub mod Base
pub mod Event
pub mod Regex
pub mod Filter
pub mod Alert
pub mod Security
pub mod Config
pub mod Stats
pub mod Monitor
pub mod Engine
pub mod Json
pub mod Storage
pub mod Reporting
pub mod Webhook
pub mod Query
pub mod Updater
pub mod Validate
pub mod Monitors
pub mod Tests
