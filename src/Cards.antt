-- ===== src/Cards.antt =====
-- Cards (apps/api/src/cards/cards.service.ts).
pub mod State
pub mod Create
pub mod Control
pub mod Kept
pub mod Quiet
pub mod Owned
pub mod Upserted
pub mod Issue
pub mod Reach
mod Tests
pub mod Paid
