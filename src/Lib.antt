-- ===== src/Lib.antt =====
-- TenzoPay: a verification library of the money path.
--
-- The program holds users' money in USDT minor units. Deposits on a chain are credited to one balance,
-- and any number of cards spend from it. Every change of a balance goes through one service, the
-- double-entry ledger, as a balanced set of entries under an idempotency key; balances are always
-- sums of entries. The services for deposits, card authorizations, card webhooks, billing and
-- administration call the ledger.
--
-- The files, and the code that they model (paths from the repository's root):
--   Base, Base/*           shared names, integers, Boolean tests, lists and text
--   Effects                what a method throws, `$transaction`, try and catch
--                          (apps/api/src/common/errors.ts)
--   Queries, Actions       queries that may fail, and actions that keep a relation of states
--   Texts, Texts/Decimal   strings by their code units, trim, BigInt, toString
--   Ledger/Books           the tables of the ledger (apps/api/prisma/schema.prisma)
--   Ledger/Posting         ensureAccount, assertBalanced, post  (apps/api/src/ledger/ledger.service.ts,
--                          as are all of the following)
--   Ledger/Balances        getAccountBalance, getBalance
--   Ledger/Movements       the `$transaction` bodies of creditDeposit, reverseDeposit, chargeFee,
--                          placeHold, releaseHold, settleAuthorization, creditRefund, postAdjustment
--   Ledger/Retry           isSerializationConflict, withSerializableRetry, resolveDuplicate
--   Ledger/Methods         the methods around those bodies, with their retries and `catch` blocks
--   Ledger/Integrity       verifyIntegrity
--   Ledger/Wallet          the abstract view: a wallet of two numbers and what a movement does to it
--   Ledger/Invariant       the invariant of the tables
--   Ledger/View, Carries, Ensure, Check, Moved, Pairs, FeeParts   the balance of an account as a
--                          function of its key, and the steps that the bodies are made of
--   Ledger/Transfers, Holds, Charges, Deposited, Settled          each body, once
--   Ledger/Safety, BodySafety, FeeSteps, FeeSafety, RetrySafety, CallSafety, ExactlyOnce   bodies, whole
--                          calls for all arguments, under the interference of others
--   Ledger/Calls, Calm      all of them as one, by the movement that a call makes; a call alone
--   Ledger/Legs, Refinement, Overdraft, Conservation, Snapshot    the abstract view and I5
--   Ledger/Samples, Tests, CallTests                               runs on small books
--   Fees/Rates, Bounds, Floor   FeesService  (apps/api/src/ledger/fees.service.ts)
--   Money/Units, Conversions    decimalsFor and the conversions  (packages/shared/src/money.ts)
--   Asa/State, Payload, Decide  AsaService.decide  (apps/api/src/webhooks/asa.service.ts)
--   Asa/Paths, Sound, Backed, Replay, Checks   what its answers promise
--   Webhooks/Rows, Sync         syncCardTransaction  (apps/api/src/webhooks/webhooks.service.ts)
--   Webhooks/Marks, Redelivery, Settling       what a report does, and a second delivery of it
--   Webhooks/Lithic, Sweep      getTransaction  (apps/api/src/providers/lithic/lithic-card.provider.ts),
--                          sweepStaleAuthorizations, and what a pass does (SweepRules)
--   Webhooks/CardState, Alchemy syncCardState and processAlchemy
--   Webhooks/Inbox, InboxRules  receive, process, replay, retryFailed, and their promises
--   Deposits/State, Advance, Record, Watch     DepositsService
--                          (apps/api/src/deposits/deposits.service.ts)
--   Deposits/Sound, Carries, Kept, Forward, Safety, WatchSafety, Reach   what every course of its
--                          methods keeps
--   Deposits/Assign             DepositAddressService  (apps/api/src/deposits/deposit-address.service.ts)
--   Deposits/Rows, Assigned, Fresh             what its ways leave of the rows, and a new address
--   Deposits/Liveness, SeenAgain               a deposit that is due, and a transfer seen again
--   Settings/Registry, Service  SettingsService  (apps/api/src/settings/settings.service.ts)
--   Settings/Reads, Change, Range   what a read and a change leaves, and the range of the values
--   Billing/State, Charge, Plans               BillingService
--                          (apps/api/src/billing/billing.service.ts)
--   Billing/Moved, Kept, Overdue, Passes, Works, Turns, PlanChange   what a pass, a turn and a change of plan leave
--   Cards/State, Create, Control               CardsService  (apps/api/src/cards/cards.service.ts)
--   Cards/Kept, Quiet, Owned, Upserted, Issue, Paid, Reach   what each way out leaves of the rows, and
--                          every course
--   Cards/Tests, Deposits/Tests, AddressTests, Settings/Tests, Billing/Tests             runs
--   Fees/Tests, Money/Tests, Asa/Tests, Webhooks/Tests, Webhooks/InboxTests, SweepTests    runs
--
-- A decision runs against the ledger's tables and three more (Desk). Each query of it may fail, as its
-- argument says (Call), and so may the ledger's call, by the same interference as above. A number of
-- the payload is a double, and so a dyadic fraction; rounding is exact on it.
--
-- The plan fees run against the ledger, the settings and the users (Firm). A Date is its time and the
-- UTC fields that the code reads (Instant).
--
-- The cards run against the ledger, the settings, the users and four more tables (Deck); the issuer's
-- answers, and the hash by which `create` calls it, are arguments.
--
-- The deposits run against the ledger's tables and four more (Vault). One method writes the table of
-- deposits at a time, and any number of others the ledger; Reach puts the methods in any order. A string
-- that the program walks is a list of UTF-16 code units (Text); `put_digits` takes a number above the
-- printed one as fuel, and each round divides by ten.
--
-- The state is a record of tables (Books). A method is a function from the tables to a result and the
-- tables; a throw inside `$transaction` restores them. A BigInt is an integer (ℤ, on the native
-- numbers), which is exact: BigInt does not overflow. A uuid is the number of rows below the new row,
-- and so fresh. A description, metadata, log line and timestamp of the ledger is left out: nothing
-- reads it back.
--
-- The database is concurrent. What others commit around an attempt of a call, and the error by which
-- the database aborts an attempt, is an argument of the method (Weather). The bodies that read a balance
-- run at SERIALIZABLE, where an attempt that commits equals one that runs alone behind what others
-- committed. The other bodies read keys only, under unique constraints: what others commit in between
-- was there before, or fires the constraint, in ensureAccount or in post, which is an abort too. That
-- others keep the invariant and undo nothing that was posted is the hypothesis IsHonest.
--
-- The retry loop makes the code's 8 attempts (`maxAttempts`), a fuel that is the code's own
-- bound, and the wait between attempts changes nothing here.
--
-- Not modelled: the web applications, the HTTP controllers, the providers' clients (but for the lookup of
-- a transaction), authentication and configuration are input and output around the money path; jobs and
-- administration are clients of the ledger that nothing here depends on. Of the cards, the lists and
-- summaries for a screen and the issuer's own rules are left out; of the deposits, the list and the texts
-- for a screen; of the settings, the fingerprints of the credentials; of the money helpers, parsing and
-- formatting. The inbox takes what an event does as a parameter.
pub mod Asa
pub mod Actions
pub mod Base
pub mod Queries
pub mod Billing
pub mod Cards
pub mod Deposits
pub mod Effects
pub mod Fees
pub mod Ledger
pub mod Money
pub mod Settings
pub mod Texts
pub mod Webhooks
