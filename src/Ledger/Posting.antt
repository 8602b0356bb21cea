-- ===== src/Ledger/Posting.antt =====
-- `ensureAccount`, `assertBalanced` and `post` of apps/api/src/ledger/ledger.service.ts. What the
-- database does to an attempt from outside (a unique constraint that fires in a race, an aborted
-- transaction) is the interference of Ledger/Retry.antt, not part of these.
use tenzopay.Base.{
  ℕ, ℤ, pos, ◌+ℤ◌, neg_ℤ, leb_ℤ, eqb_ℤ, ltb, String, none, some, if◌then◌else◌, List, [], ◌∷◌,
  length,
}
use tenzopay.Effects.{
  ledger_imbalance, needs_two_entries, amount_not_positive, does_not_balance, Result, ok, err,
  Action,
}
use tenzopay.Ledger.Books.{
  debit, credit, LedgerTransactionType, AccountKey, EntryInput, Books, find_account,
  find_transaction, create_account, create_transaction,
}

-- Get or create a ledger account.
unfoldable pub ensure_account : AccountKey → Action Books ℕ
ensure_account key b = elim (find_account key b.accounts) [
  | some id ↦ (ok id, b)
  | none ↦ (ok (length b.accounts), create_account key b)
]

-- `direction === CREDIT ? amount : -amount`
abbrev pub signed : EntryInput → ℤ
signed e = elim e.direction [ credit ↦ e.amount | debit ↦ neg_ℤ e.amount ]

-- The loop of `assertBalanced`: the net so far, and a throw at the first amount that is not positive.
unfoldable pub net_of : ℤ → List EntryInput → Result ℤ
net_of net [] = ok net
net_of net (e ∷ rest) =
    let go = net_of (net +ℤ signed e) rest in
    if leb_ℤ e.amount (pos 0) then err (ledger_imbalance amount_not_positive) else go

abbrev check_net : Result ℤ → Result (Unit {0})
check_net (err e) = err e
check_net (ok net) =
    if eqb_ℤ net (pos 0) then ok tt else err (ledger_imbalance (does_not_balance net))

unfoldable pub assert_balanced : List EntryInput → Result (Unit {0})
assert_balanced entries =
    if ltb (length entries) 2
    then err (ledger_imbalance needs_two_entries)
    else check_net (net_of (pos 0) entries)

-- The part of `post` behind the check.
unfoldable pub post_checked : LedgerTransactionType → String → List EntryInput → Action Books ℕ
post_checked type key entries b = elim (find_transaction key b.transactions) [
  | some id ↦ (ok id, b)
  | none ↦ (ok (length b.transactions), create_transaction type key entries b)
]

-- Post a balanced set of entries, or return the transaction that has the key already.
unfoldable pub post : LedgerTransactionType → String → List EntryInput → Action Books ℕ
post type key entries b = elim (assert_balanced entries) [
  | err e ↦ (err e, b)
  | ok _ ↦ post_checked type key entries b
]
