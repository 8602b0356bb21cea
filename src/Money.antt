-- ===== src/Money.antt =====
-- packages/shared/src/money.ts: minor units and their conversions. parseAmount and formatAmount are
-- left out.
pub mod Units
pub mod Conversions
mod Tests
