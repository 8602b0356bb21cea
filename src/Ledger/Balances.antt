-- ===== src/Ledger/Balances.antt =====
-- `getAccountBalance` and `getBalance` of apps/api/src/ledger/ledger.service.ts.
use tenzopay.Base.{
  ℕ, ℤ, pos, ◌+ℤ◌, neg_ℤ, String, str_eq, id_eq, Option, none, some, Bool, true, false, ◌&&◌, ◌||◌,
  ◌==◌, if◌then◌else◌, List, [], ◌∷◌, ◌++◌,
}
use tenzopay.Ledger.Books.{
  LedgerDirection, debit, credit, user_available, user_held, kind_eq, LedgerAccount, EntryInput,
  LedgerTransaction, Books,
}

-- The table `ledger_entries`.
unfoldable pub ledger_entries : List LedgerTransaction → List EntryInput
ledger_entries [] = []
ledger_entries (t ∷ rest) = t.entries ++ ledger_entries rest

abbrev pub direction_eq : LedgerDirection → LedgerDirection → Bool
direction_eq debit debit = true
direction_eq credit credit = true
direction_eq _ _ = false

abbrev pub add_sum : ℤ → Option ℤ → ℤ
add_sum a none = a
add_sum a (some s) = a +ℤ s

-- `SUM(amount)` of the account's entries of one direction; `none` where the group is empty.
unfoldable pub sum_of : LedgerDirection → ℕ → List EntryInput → Option ℤ
sum_of d id [] = none
sum_of d id (e ∷ rest) =
    let s = sum_of d id rest in
    if e.account_id == id && direction_eq e.direction d then some (add_sum e.amount s) else s

abbrev pub group : LedgerDirection → Option ℤ → List (LedgerDirection × ℤ)
group d none = []
group d (some s) = (d, s) ∷ []

-- `groupBy({ by: ['direction'], where: { accountId }, _sum: { amount: true } })`
unfoldable pub group_by_direction : ℕ → List EntryInput → List (LedgerDirection × ℤ)
unfolding sum_of
group_by_direction id entries =
    group credit (sum_of credit id entries) ++ group debit (sum_of debit id entries)

unfoldable pub add_rows : ℤ → List (LedgerDirection × ℤ) → ℤ
add_rows balance [] = balance
add_rows balance ((credit, sum) ∷ rest) = add_rows (balance +ℤ sum) rest
add_rows balance ((debit, sum) ∷ rest) = add_rows (balance +ℤ neg_ℤ sum) rest

-- Balance of one account = SUM(credits) - SUM(debits).
unfoldable pub get_account_balance : ℕ → Books → ℤ
get_account_balance id b = add_rows (pos 0) (group_by_direction id (ledger_entries b.transactions))

pub record BalanceSnapshot : Type 0 where
  pub currency : String
  pub available : ℤ
  pub held : ℤ
  pub total : ℤ

-- The accounts that `getBalance` reads, and the loop over them: the last one of a kind counts.
unfoldable pub is_users : String → String → LedgerAccount → Bool
is_users user currency a =
    (id_eq a.key.user_id (some user) && str_eq a.key.currency currency)
    && (kind_eq a.key.kind user_available || kind_eq a.key.kind user_held)

unfoldable pub read_balances : String → String → Books → List LedgerAccount → ℤ × ℤ → ℤ × ℤ
read_balances user currency b [] acc = acc
read_balances user currency b (a ∷ rest) (available, held) = read_balances user currency b rest (
    if is_users user currency a
    then (if kind_eq a.key.kind user_available
        then (get_account_balance a.id b, held)
        else (available, get_account_balance a.id b))
    else (available, held))

unfoldable pub get_balance : String → String → Books → BalanceSnapshot
get_balance user currency b =
    let (available, held) = read_balances user currency b b.accounts (pos 0, pos 0) in
    record { currency = currency; available = available; held = held; total = available +ℤ held }
