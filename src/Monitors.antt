-- ===== src/Monitors.antt =====
-- src/monitor/: the monitors that compare what they find with what they found before. What the
-- operating system says is a parameter.
pub mod Changes
pub mod Words
pub mod Environment
pub mod Packages
pub mod Processes
pub mod Network
