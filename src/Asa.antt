-- ===== src/Asa.antt =====
-- AsaService of apps/api/src/webhooks/asa.service.ts: the decision on a card authorization.
pub mod State
pub mod Payload
pub mod Decide
pub mod Paths
pub mod Sound
pub mod Backed
pub mod Replay
pub mod Checks
mod Tests
