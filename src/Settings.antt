-- ===== src/Settings.antt =====
-- Operational settings (apps/api/src/settings/settings.service.ts).
pub mod Registry
pub mod Service
pub mod Reads
pub mod Change
pub mod Range
mod Tests
