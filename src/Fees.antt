-- ===== src/Fees.antt =====
-- FeesService of apps/api/src/ledger/fees.service.ts. The rates are what SettingsService.getMany
-- returns at the moment of charging, and so arguments.
pub mod Bounds
pub mod Floor
mod Tests
pub mod Rates
