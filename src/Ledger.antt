-- ===== src/Ledger.antt =====
-- The double-entry ledger (apps/api/src/ledger/ledger.service.ts).
pub mod Books
pub mod Posting
pub mod Balances
pub mod Movements
pub mod Retry
pub mod Methods
pub mod Invariant
pub mod View
pub mod Ensure
pub mod Check
pub mod Moved
pub mod Safety
pub mod Carries
pub mod FeeParts
pub mod Pairs
pub mod Deposited
pub mod Settled
pub mod Transfers
pub mod Holds
pub mod Charges
pub mod BodySafety
pub mod FeeSteps
pub mod FeeSafety
pub mod RetrySafety
pub mod CallSafety
pub mod Calm
pub mod Calls
pub mod ExactlyOnce
pub mod Snapshot
pub mod Integrity
pub mod Conservation
pub mod Wallet
pub mod Legs
pub mod Refinement
pub mod Overdraft
pub mod Samples
mod Tests
mod CallTests
