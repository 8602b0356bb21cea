-- ===== src/Deposits.antt =====
-- Deposits on the chain (apps/api/src/deposits/deposits.service.ts), and the addresses they are sent to
-- (apps/api/src/deposits/deposit-address.service.ts).
pub mod State
pub mod Assign
pub mod Rows
pub mod Assigned
pub mod Fresh
pub mod Advance
pub mod Record
pub mod Watch
pub mod Sound
pub mod Carries
pub mod Kept
pub mod Forward
pub mod Safety
pub mod WatchSafety
pub mod Reach
pub mod Liveness
pub mod SeenAgain
mod Tests
mod AddressTests
