-- ===== src/Security.antt =====
-- src/security/security_auditor.h and src/security/security_auditor.cpp: the security auditor. The
-- data, the operations, the analysis of events and the predefined rules are in the modules below.
pub mod Types
pub mod Auditor
pub mod Analysis
pub mod Presets
