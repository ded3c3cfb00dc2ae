-- ===== src/Tests/EventTests.antt =====
-- The names of src/core/event.cpp at concrete texts.
use change_of_system.Base.{◌≡◌, refl, codes, text_beq}
use change_of_system.Event.{type_from_name, usb_device_removed}

usb_type : type_from_name (codes "usb_device_removed") ≡ usb_device_removed
unfolding type_from_name text_beq
usb_type = refl
