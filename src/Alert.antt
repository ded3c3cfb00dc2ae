-- ===== src/Alert.antt =====
-- src/alert/alert_manager.h and src/alert/alert_manager.cpp: the alert manager. The data, the
-- message templates and the operations are in the modules below, and the proofs beside them.
pub mod Types
pub mod Message
pub mod Manager
pub mod Presets
