-- ===== src/Billing.antt =====
-- The monthly plan fees (apps/api/src/billing/billing.service.ts).
pub mod State
pub mod Charge
pub mod Plans
pub mod Moved
pub mod Kept
pub mod Overdue
pub mod Passes
pub mod Works
pub mod Turns
pub mod PlanChange
mod Tests
