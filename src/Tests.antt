-- ===== src/Tests.antt =====
-- Inputs at which the theorems apply, and runs of the definitions.
mod Data
mod EventTests
mod FilterTests
mod AlertTests
mod SecurityTests
mod ConfigTests
mod StatsTests
mod EngineTests
mod StorageTests
mod FileTests
mod ReportingTests
mod WebhookTests
mod QueryTests
mod UpdaterTests
mod ValidateTests
mod MonitorsTests
