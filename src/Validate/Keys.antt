-- ===== src/Validate/Keys.antt =====
-- The keys that the validator knows, with their types and default values.
use change_of_system.Base.{List, [], ◌∷◌, Text, text_key, codes, Dict, insert}

-- `required` is false for each of them.
pub record KeySpec : Type 0 where
  pub type : Text
  pub default_value : Text

abbrev spec : Text → Text → KeySpec
spec type default_value = record { type = type; default_value = default_value }

-- The entries in the order of the source.
abbrev pub specs : List (Text × KeySpec)
specs =
    (codes "filesystem.enabled", spec (codes "bool") (codes "true"))
    ∷ (codes "filesystem.poll_interval_ms", spec (codes "int") (codes "2000"))
    ∷ (codes "filesystem.use_native", spec (codes "bool") (codes "true"))
    ∷ (codes "filesystem.watch_paths", spec (codes "list") (codes "/etc,/tmp"))
    ∷ (codes "process.enabled", spec (codes "bool") (codes "true"))
    ∷ (codes "process.poll_interval_ms", spec (codes "int") (codes "3000"))
    ∷ (codes "process.track_cpu", spec (codes "bool") (codes "true"))
    ∷ (codes "process.track_memory", spec (codes "bool") (codes "true"))
    ∷ (codes "network.enabled", spec (codes "bool") (codes "true"))
    ∷ (codes "network.poll_interval_ms", spec (codes "int") (codes "5000"))
    ∷ (codes "system_config.enabled", spec (codes "bool") (codes "true"))
    ∷ (codes "system_config.poll_interval_ms", spec (codes "int") (codes "10000"))
    ∷ (codes "user_activity.enabled", spec (codes "bool") (codes "true"))
    ∷ (codes "user_activity.poll_interval_ms", spec (codes "int") (codes "5000"))
    ∷ (codes "service.enabled", spec (codes "bool") (codes "true"))
    ∷ (codes "service.poll_interval_ms", spec (codes "int") (codes "10000"))
    ∷ (codes "file_integrity.enabled", spec (codes "bool") (codes "true"))
    ∷ (codes "file_integrity.poll_interval_ms", spec (codes "int") (codes "30000"))
    ∷ (codes "file_integrity.watch_files", spec (codes "list") (codes ""))
    ∷ (codes "usb_device.enabled", spec (codes "bool") (codes "true"))
    ∷ (codes "usb_device.poll_interval_ms", spec (codes "int") (codes "5000"))
    ∷ (codes "disk_space.enabled", spec (codes "bool") (codes "true"))
    ∷ (codes "disk_space.poll_interval_ms", spec (codes "int") (codes "30000"))
    ∷ (codes "disk_space.warning_threshold", spec (codes "double") (codes "80.0"))
    ∷ (codes "disk_space.critical_threshold", spec (codes "double") (codes "95.0"))
    ∷ (codes "disk_space.watch_paths", spec (codes "list") (codes ""))
    ∷ (codes "system_load.enabled", spec (codes "bool") (codes "true"))
    ∷ (codes "system_load.poll_interval_ms", spec (codes "int") (codes "5000"))
    ∷ (codes "system_load.load_threshold", spec (codes "double") (codes "5.0"))
    ∷ (codes "system_load.cpu_threshold", spec (codes "double") (codes "90.0"))
    ∷ (codes "log.enabled", spec (codes "bool") (codes "true"))
    ∷ (codes "log.poll_interval_ms", spec (codes "int") (codes "5000"))
    ∷ (codes "log.watch_paths", spec (codes "list") (codes ""))
    ∷ (codes "port.enabled", spec (codes "bool") (codes "true"))
    ∷ (codes "port.poll_interval_ms", spec (codes "int") (codes "5000"))
    ∷ (codes "port.watch_ports", spec (codes "list") (codes ""))
    ∷ (codes "package.enabled", spec (codes "bool") (codes "true"))
    ∷ (codes "package.poll_interval_ms", spec (codes "int") (codes "60000"))
    ∷ (codes "environment.enabled", spec (codes "bool") (codes "true"))
    ∷ (codes "environment.poll_interval_ms", spec (codes "int") (codes "10000"))
    ∷ (codes "environment.watch_variables", spec (codes "list") (codes ""))
    ∷ (codes "storage.database_path", spec (codes "string") (codes "change-of-system.db"))
    ∷ (codes "storage.max_events", spec (codes "int") (codes "100000"))
    ∷ (codes "storage.max_size_mb", spec (codes "int") (codes "0"))
    ∷ (codes "storage.rotate_count", spec (codes "int") (codes "5"))
    ∷ (codes "reporting.enabled", spec (codes "bool") (codes "false"))
    ∷ (codes "reporting.endpoint", spec (codes "string") (codes ""))
    ∷ (codes "reporting.api_key", spec (codes "string") (codes ""))
    ∷ (codes "reporting.batch_size", spec (codes "int") (codes "100"))
    ∷ (codes "reporting.interval_ms", spec (codes "int") (codes "10000"))
    ∷ (codes "alert.enabled", spec (codes "bool") (codes "true"))
    ∷ (codes "filter.enabled", spec (codes "bool") (codes "false"))
    ∷ (codes "security.enabled", spec (codes "bool") (codes "true"))
    ∷ (codes "webhook.enabled", spec (codes "bool") (codes "false"))
    ∷ (codes "webhook.url", spec (codes "string") (codes ""))
    ∷ (codes "webhook.secret", spec (codes "string") (codes ""))
    ∷ (codes "webhook.timeout_ms", spec (codes "int") (codes "5000"))
    ∷ (codes "webhook.retry_count", spec (codes "int") (codes "3"))
    ∷ (codes "config.watch_enabled", spec (codes "bool") (codes "false"))
    ∷ (codes "config.watch_interval_ms", spec (codes "int") (codes "5000"))
    ∷ (codes "snapshot.max_processes", spec (codes "int") (codes "50"))
    ∷ (codes "snapshot.include_processes", spec (codes "bool") (codes "true"))
    ∷ (codes "snapshot.include_network", spec (codes "bool") (codes "true"))
    ∷ (codes "snapshot.include_ports", spec (codes "bool") (codes "true"))
    ∷ (codes "snapshot.include_disk", spec (codes "bool") (codes "true"))
    ∷ (codes "snapshot.include_load", spec (codes "bool") (codes "true"))
    ∷ (codes "snapshot.include_environment", spec (codes "bool") (codes "true"))
    ∷ []

abbrev insert_specs : List (Text × KeySpec) → Dict Text KeySpec → Dict Text KeySpec
insert_specs [] m = m
insert_specs ((key, s) ∷ rest) m = insert_specs rest (insert key s m)

-- `std::map` built from the entries, none of which has the key of another.
unfoldable pub known_keys : Dict Text KeySpec
unfolding insert
known_keys = insert_specs specs []
