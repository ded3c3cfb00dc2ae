-- ===== src/Event/Names.antt =====
-- The names of categories and types, which storage writes and reads back.
use change_of_system.Base.{◌≡◌, ◌⊎◌, refl, Text, codes, text_beq, text_beq_iff, arith}
use change_of_system.Event.{
  EventCategory, EventType, category_name, type_name, category_from_name, type_from_name,
  category_of,
}

category_from_name-category_name : (c : EventCategory) → category_from_name (category_name c) ≡ c
unfolding category_from_name category_name text_beq
category_from_name-category_name EventCategory.filesystem = refl
category_from_name-category_name EventCategory.process = refl
category_from_name-category_name EventCategory.network = refl
category_from_name-category_name EventCategory.system_config = refl
category_from_name-category_name EventCategory.hardware = refl
category_from_name-category_name EventCategory.system = refl
category_from_name-category_name EventCategory.unknown = refl

type_from_name-type_name : (t : EventType) → type_from_name (type_name t) ≡ t
unfolding type_from_name type_name text_beq
type_from_name-type_name EventType.file_created = refl
type_from_name-type_name EventType.file_modified = refl
type_from_name-type_name EventType.file_deleted = refl
type_from_name-type_name EventType.file_moved = refl
type_from_name-type_name EventType.file_permission_changed = refl
type_from_name-type_name EventType.process_started = refl
type_from_name-type_name EventType.process_stopped = refl
type_from_name-type_name EventType.process_cpu_spike = refl
type_from_name-type_name EventType.process_memory_spike = refl
type_from_name-type_name EventType.network_connection_opened = refl
type_from_name-type_name EventType.network_connection_closed = refl
type_from_name-type_name EventType.network_bandwidth_spike = refl
type_from_name-type_name EventType.network_dns_query = refl
type_from_name-type_name EventType.config_value_changed = refl
type_from_name-type_name EventType.service_state_changed = refl
type_from_name-type_name EventType.user_logged_in = refl
type_from_name-type_name EventType.user_logged_out = refl
type_from_name-type_name EventType.usb_device_inserted = refl
type_from_name-type_name EventType.usb_device_removed = refl
type_from_name-type_name EventType.disk_space_warning = refl
type_from_name-type_name EventType.disk_space_critical = refl
type_from_name-type_name EventType.disk_space_changed = refl
type_from_name-type_name EventType.system_load_high = refl
type_from_name-type_name EventType.system_load_normal = refl
type_from_name-type_name EventType.log_pattern_matched = refl
type_from_name-type_name EventType.log_anomaly_detected = refl
type_from_name-type_name EventType.unknown = refl

category_name-category_from_name :
    (s : Text)
    → (category_from_name s ≡ EventCategory.unknown) ⊎ (category_name (category_from_name s) ≡ s)
unfolding category_from_name category_name
category_name-category_from_name s = ground (
  arith,
  text_beq_iff s (codes "filesystem"),
  text_beq_iff s (codes "process"),
  text_beq_iff s (codes "network"),
  text_beq_iff s (codes "system_config"),
  text_beq_iff s (codes "hardware"),
  text_beq_iff s (codes "system"),
)

type_name-type_from_name :
    (s : Text) → (type_from_name s ≡ EventType.unknown) ⊎ (type_name (type_from_name s) ≡ s)
unfolding type_from_name type_name
type_name-type_from_name s = ground (
  arith,
  text_beq_iff s (codes "file_created"),
  text_beq_iff s (codes "file_modified"),
  text_beq_iff s (codes "file_deleted"),
  text_beq_iff s (codes "file_moved"),
  text_beq_iff s (codes "file_permission_changed"),
  text_beq_iff s (codes "process_started"),
  text_beq_iff s (codes "process_stopped"),
  text_beq_iff s (codes "process_cpu_spike"),
  text_beq_iff s (codes "process_memory_spike"),
  text_beq_iff s (codes "network_connection_opened"),
  text_beq_iff s (codes "network_connection_closed"),
  text_beq_iff s (codes "network_bandwidth_spike"),
  text_beq_iff s (codes "network_dns_query"),
  text_beq_iff s (codes "config_value_changed"),
  text_beq_iff s (codes "service_state_changed"),
  text_beq_iff s (codes "user_logged_in"),
  text_beq_iff s (codes "user_logged_out"),
  text_beq_iff s (codes "usb_device_inserted"),
  text_beq_iff s (codes "usb_device_removed"),
  text_beq_iff s (codes "disk_space_warning"),
  text_beq_iff s (codes "disk_space_critical"),
  text_beq_iff s (codes "disk_space_changed"),
  text_beq_iff s (codes "system_load_high"),
  text_beq_iff s (codes "system_load_normal"),
  text_beq_iff s (codes "log_pattern_matched"),
  text_beq_iff s (codes "log_anomaly_detected"),
)

-- Every category and every type is read back from its name.
pub names-round_trip :
    (c : EventCategory) (t : EventType)
    → (category_from_name (category_name c) ≡ c) × (type_from_name (type_name t) ≡ t)
names-round_trip c t = (category_from_name-category_name c, type_from_name-type_name t)

-- Only the unknown type has the unknown category.
pub category_of_known :
    (t : EventType) → category_of t ≡ EventCategory.unknown → t ≡ EventType.unknown
unfolding category_of
category_of_known t h = ground arith
