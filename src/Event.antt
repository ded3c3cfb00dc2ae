-- ===== src/Event.antt =====
-- src/core/event.h and src/core/event.cpp: the event record, its enumerations and their names.
pub mod Names
use mathlib.Core.Bool.{decide, decide_iff}
use change_of_system.Base.{
  ℕ, ◌/◌, ◌≡◌, ◌↔◌, List, Bool, true, Text, codes, Key, Dict, text_key, ltb, ◌==◌, if◌then◌else◌,
}

-- Nanoseconds since the epoch. Every clock reading and every stored time is after the epoch.
abbrev pub Timestamp : Type 0
Timestamp = ℕ

unfoldable pub to_unix_ms : Timestamp → ℕ
to_unix_ms t = t / 1000000

pub data EventCategory : Type 0 where
  filesystem process network system_config hardware system unknown : EventCategory

pub data EventType : Type 0 where
  file_created file_modified file_deleted file_moved file_permission_changed : EventType
  process_started process_stopped process_cpu_spike process_memory_spike : EventType
  network_connection_opened network_connection_closed network_bandwidth_spike : EventType
  network_dns_query : EventType
  config_value_changed service_state_changed user_logged_in user_logged_out : EventType
  usb_device_inserted usb_device_removed : EventType
  disk_space_warning disk_space_critical disk_space_changed : EventType
  system_load_high system_load_normal : EventType
  log_pattern_matched log_anomaly_detected : EventType
  unknown : EventType

unfoldable pub EventCategory-discrete : Discrete EventCategory
unfolding decide
EventCategory-discrete = hlevel

unfoldable pub EventType-discrete : Discrete EventType
unfolding decide
EventType-discrete = hlevel

-- The value of the enumerator, by which `std::map` orders its keys.
abbrev category_index : EventCategory → ℕ
category_index filesystem = 0
category_index process = 1
category_index network = 2
category_index system_config = 3
category_index hardware = 4
category_index system = 5
category_index EventCategory.unknown = 6

abbrev type_index : EventType → ℕ
type_index file_created = 0
type_index file_modified = 1
type_index file_deleted = 2
type_index file_moved = 3
type_index file_permission_changed = 4
type_index process_started = 5
type_index process_stopped = 6
type_index process_cpu_spike = 7
type_index process_memory_spike = 8
type_index network_connection_opened = 9
type_index network_connection_closed = 10
type_index network_bandwidth_spike = 11
type_index network_dns_query = 12
type_index config_value_changed = 13
type_index service_state_changed = 14
type_index user_logged_in = 15
type_index user_logged_out = 16
type_index usb_device_inserted = 17
type_index usb_device_removed = 18
type_index disk_space_warning = 19
type_index disk_space_critical = 20
type_index disk_space_changed = 21
type_index system_load_high = 22
type_index system_load_normal = 23
type_index log_pattern_matched = 24
type_index log_anomaly_detected = 25
type_index EventType.unknown = 26

instance abbrev pub category_key : Key EventCategory
category_key = record {
  less = λ a b. ltb (category_index a) (category_index b);
  equals = λ a b. decide (EventCategory-discrete a b);
  equals_iff = λ a b. decide_iff (EventCategory-discrete a b);
}

instance abbrev pub type_key : Key EventType
type_key = record {
  less = λ a b. ltb (type_index a) (type_index b);
  equals = λ a b. decide (EventType-discrete a b);
  equals_iff = λ a b. decide_iff (EventType-discrete a b);
}

unfoldable pub category_name : EventCategory → Text
category_name filesystem = codes "filesystem"
category_name process = codes "process"
category_name network = codes "network"
category_name system_config = codes "system_config"
category_name hardware = codes "hardware"
category_name system = codes "system"
category_name EventCategory.unknown = codes "unknown"

unfoldable pub type_name : EventType → Text
type_name file_created = codes "file_created"
type_name file_modified = codes "file_modified"
type_name file_deleted = codes "file_deleted"
type_name file_moved = codes "file_moved"
type_name file_permission_changed = codes "file_permission_changed"
type_name process_started = codes "process_started"
type_name process_stopped = codes "process_stopped"
type_name process_cpu_spike = codes "process_cpu_spike"
type_name process_memory_spike = codes "process_memory_spike"
type_name network_connection_opened = codes "network_connection_opened"
type_name network_connection_closed = codes "network_connection_closed"
type_name network_bandwidth_spike = codes "network_bandwidth_spike"
type_name network_dns_query = codes "network_dns_query"
type_name config_value_changed = codes "config_value_changed"
type_name service_state_changed = codes "service_state_changed"
type_name user_logged_in = codes "user_logged_in"
type_name user_logged_out = codes "user_logged_out"
type_name usb_device_inserted = codes "usb_device_inserted"
type_name usb_device_removed = codes "usb_device_removed"
type_name disk_space_warning = codes "disk_space_warning"
type_name disk_space_critical = codes "disk_space_critical"
type_name disk_space_changed = codes "disk_space_changed"
type_name system_load_high = codes "system_load_high"
type_name system_load_normal = codes "system_load_normal"
type_name log_pattern_matched = codes "log_pattern_matched"
type_name log_anomaly_detected = codes "log_anomaly_detected"
type_name EventType.unknown = codes "unknown"

unfoldable pub category_of : EventType → EventCategory
category_of file_created = filesystem
category_of file_modified = filesystem
category_of file_deleted = filesystem
category_of file_moved = filesystem
category_of file_permission_changed = filesystem
category_of process_started = process
category_of process_stopped = process
category_of process_cpu_spike = process
category_of process_memory_spike = process
category_of network_connection_opened = network
category_of network_connection_closed = network
category_of network_bandwidth_spike = network
category_of network_dns_query = network
category_of config_value_changed = system_config
category_of service_state_changed = system_config
category_of user_logged_in = system_config
category_of user_logged_out = system_config
category_of usb_device_inserted = hardware
category_of usb_device_removed = hardware
category_of disk_space_warning = system
category_of disk_space_critical = system
category_of disk_space_changed = system
category_of system_load_high = system
category_of system_load_normal = system
category_of log_pattern_matched = system
category_of log_anomaly_detected = system
category_of EventType.unknown = EventCategory.unknown

unfoldable pub category_from_name : Text → EventCategory
category_from_name name =
    if name == codes "filesystem"
    then filesystem
    else if name == codes "process"
    then process
    else if name == codes "network"
    then network
    else if name == codes "system_config"
    then system_config
    else if name == codes "hardware"
    then hardware
    else if name == codes "system"
    then system
    else EventCategory.unknown

unfoldable pub type_from_name : Text → EventType
type_from_name name =
    if name == codes "file_created"
    then file_created
    else if name == codes "file_modified"
    then file_modified
    else if name == codes "file_deleted"
    then file_deleted
    else if name == codes "file_moved"
    then file_moved
    else if name == codes "file_permission_changed"
    then file_permission_changed
    else if name == codes "process_started"
    then process_started
    else if name == codes "process_stopped"
    then process_stopped
    else if name == codes "process_cpu_spike"
    then process_cpu_spike
    else if name == codes "process_memory_spike"
    then process_memory_spike
    else if name == codes "network_connection_opened"
    then network_connection_opened
    else if name == codes "network_connection_closed"
    then network_connection_closed
    else if name == codes "network_bandwidth_spike"
    then network_bandwidth_spike
    else if name == codes "network_dns_query"
    then network_dns_query
    else if name == codes "config_value_changed"
    then config_value_changed
    else if name == codes "service_state_changed"
    then service_state_changed
    else if name == codes "user_logged_in"
    then user_logged_in
    else if name == codes "user_logged_out"
    then user_logged_out
    else if name == codes "usb_device_inserted"
    then usb_device_inserted
    else if name == codes "usb_device_removed"
    then usb_device_removed
    else if name == codes "disk_space_warning"
    then disk_space_warning
    else if name == codes "disk_space_critical"
    then disk_space_critical
    else if name == codes "disk_space_changed"
    then disk_space_changed
    else if name == codes "system_load_high"
    then system_load_high
    else if name == codes "system_load_normal"
    then system_load_normal
    else if name == codes "log_pattern_matched"
    then log_pattern_matched
    else if name == codes "log_anomaly_detected"
    then log_anomaly_detected
    else EventType.unknown

-- `attributes` is a `std::map<std::string, std::string>`.
pub record Event : Type 0 where
  pub id : ℕ
  pub timestamp : Timestamp
  pub category : EventCategory
  pub type : EventType
  pub source : Text
  pub target : Text
  pub attributes : Dict Text Text
  pub summary : Text
  pub host : Text
  pub platform : Text
