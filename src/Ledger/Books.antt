-- ===== src/Ledger/Books.antt =====
-- The tables of the ledger (apps/api/prisma/schema.prisma) and the reads of them. New rows stand
-- at the front; the uuid of a new row is the number of rows below it, a fresh one. Free text that
-- nothing reads back (description, metadata, createdAt) is left out.
use tenzopay.Base.{
  ℕ, ℤ, String, str_eq, str_eq_iff, id_eq, id_eq_iff, Option, none, some, Bool, true, false, ◌&&◌,
  ◌||◌, ◌==◌, if◌then◌else◌, List, [], ◌∷◌, length, ◌≡◌, ◌↔◌, arith,
}
use tenzopay.Effects.{Thrown, prisma_known, Action, ok, err}

pub data LedgerAccountKind : Type 0 where
  user_available user_held : LedgerAccountKind
  system_deposit_clearing system_card_settlement : LedgerAccountKind
  system_fee_revenue system_adjustment : LedgerAccountKind

pub data LedgerDirection : Type 0 where
  debit credit : LedgerDirection

pub data LedgerTransactionType : Type 0 where
  deposit_pending deposit_confirmed deposit_reversed : LedgerTransactionType
  card_authorization card_authorization_reversal card_settlement : LedgerTransactionType
  card_refund fee admin_adjustment : LedgerTransactionType

pub data FeeType : Type 0 where
  deposit fx card_issuance monthly : FeeType

-- The columns of `@@unique([kind, userId, currency])`.
pub record AccountKey : Type 0 where
  pub kind : LedgerAccountKind
  pub user_id : Option String
  pub currency : String

pub record LedgerAccount : Type 0 where
  pub id : ℕ
  pub key : AccountKey

pub record EntryInput : Type 0 where
  pub account_id : ℕ
  pub direction : LedgerDirection
  pub amount : ℤ
  pub currency : String

pub record LedgerTransaction : Type 0 where
  pub id : ℕ
  pub type : LedgerTransactionType
  pub idempotency_key : String
  pub entries : List EntryInput

pub record FeeRow : Type 0 where
  pub user_id : String
  pub type : FeeType
  pub amount : ℤ
  pub currency : String
  pub ledger_transaction_id : ℕ

pub record Books : Type 0 where
  pub accounts : List LedgerAccount
  pub transactions : List LedgerTransaction
  pub fees : List FeeRow

abbrev kind_rank : LedgerAccountKind → ℕ
kind_rank user_available = 0
kind_rank user_held = 1
kind_rank system_deposit_clearing = 2
kind_rank system_card_settlement = 3
kind_rank system_fee_revenue = 4
kind_rank system_adjustment = 5

unfoldable pub kind_eq : LedgerAccountKind → LedgerAccountKind → Bool
kind_eq a b = kind_rank a == kind_rank b

pub kind_eq_iff : (a b : LedgerAccountKind) → (kind_eq a b ≡ true) ↔ (a ≡ b)
unfolding kind_eq
kind_eq_iff a b = ground arith

-- `where: { kind, userId, currency }`
unfoldable pub key_eq : AccountKey → AccountKey → Bool
key_eq a b = kind_eq a.kind b.kind && (id_eq a.user_id b.user_id && str_eq a.currency b.currency)

pub key_eq_iff : (a b : AccountKey) → (key_eq a b ≡ true) ↔ (a ≡ b)
unfolding key_eq
key_eq_iff a b = ground (
  arith,
  kind_eq_iff a.kind b.kind,
  id_eq_iff a.user_id b.user_id,
  str_eq_iff a.currency b.currency,
)

-- `ledgerAccount.findFirst({ where: key })`
unfoldable pub find_account : AccountKey → List LedgerAccount → Option ℕ
find_account key [] = none
find_account key (a ∷ rest) = if key_eq a.key key then some a.id else find_account key rest

-- `ledgerTransaction.findUnique({ where: { idempotencyKey } })`
unfoldable pub find_transaction : String → List LedgerTransaction → Option ℕ
find_transaction key [] = none
find_transaction key (t ∷ rest) =
    if str_eq t.idempotency_key key then some t.id else find_transaction key rest

-- `ledgerAccount.create({ data: key })`
unfoldable pub create_account : AccountKey → Books → Books
create_account key b = record b {
  accounts = record { id = length b.accounts; key = key } ∷ b.accounts;
}

-- `ledgerTransaction.create({ data: { type, idempotencyKey, entries: { create } } })`
unfoldable pub create_transaction : LedgerTransactionType → String → List EntryInput → Books → Books
create_transaction type key entries b = record b {
  transactions =
      record { id = length b.transactions; type = type; idempotency_key = key; entries = entries }
      ∷ b.transactions;
}

unfoldable pub has_fee : ℕ → List FeeRow → Bool
has_fee id [] = false
has_fee id (f ∷ rest) = f.ledger_transaction_id == id || has_fee id rest

-- `code: 'P2002'`, Prisma's error for a unique constraint that fires
abbrev pub unique_violation : Thrown
unique_violation = prisma_known "P2002" none "Unique constraint failed"

-- `fee.create({ data: row })`; `fees.ledgerTransactionId` is unique.
unfoldable pub create_fee : FeeRow → Action Books (Unit {0})
create_fee row b =
    if has_fee row.ledger_transaction_id b.fees
    then (err unique_violation, b)
    else (ok tt, record b { fees = row ∷ b.fees })
