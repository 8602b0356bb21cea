-- ===== src/Webhooks.antt =====
-- WebhooksService of apps/api/src/webhooks/webhooks.service.ts: the card transactions that the issuer
-- reports.
pub mod Rows
pub mod Sync
pub mod Marks
pub mod Redelivery
pub mod Settling
pub mod Lithic
pub mod Sweep
pub mod SweepRules
pub mod CardState
pub mod Alchemy
pub mod Inbox
pub mod InboxRules
mod Tests
mod InboxTests
mod SweepTests
