-- ===== src/Validate.antt =====
-- src/validate/config_validator.h and config_validator.cpp: `ConfigValidator`. The report is printed
-- text and is left out.
pub mod Keys
pub mod Values
pub mod Checks
pub mod Validator
