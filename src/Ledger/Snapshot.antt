-- ===== src/Ledger/Snapshot.antt =====
-- `getBalance` reports the balances at the user's two accounts.
use tenzopay.Base.{
  ℤ, pos, ◌+ℤ◌, String, str_eq_iff, id_eq_iff, none, some, List, [], ◌∷◌, ◌≡◌, refl, arith,
}
use tenzopay.Ledger.Books.{
  AccountKey, key_eq_iff, kind_eq_iff, LedgerAccount, user_available, user_held, Books,
  find_account,
}
use tenzopay.Ledger.Balances.{is_users, read_balances, get_account_balance, get_balance}
use tenzopay.Ledger.Movements.{available_of, held_of}
use tenzopay.Ledger.Invariant.{AccountsValid, IsValid}
use tenzopay.Ledger.View.{balance_at}

-- The balance of the account with a key, or what was there before.
abbrev found_or : Books → AccountKey → List LedgerAccount → ℤ → ℤ
found_or b k accounts before = elim (find_account k accounts) [
  | some id ↦ get_account_balance id b
  | none ↦ before
]

read_balances_lem :
    (user currency : String) (b : Books) (accounts : List LedgerAccount) (available held : ℤ)
    → AccountsValid accounts
    → read_balances user currency b accounts (available, held) ≡ (
      found_or b (available_of user currency) accounts available,
      found_or b (held_of user currency) accounts held,
    )
unfolding read_balances find_account is_users
read_balances_lem user currency b [] available held v = refl
read_balances_lem user currency b (a ∷ rest) available held v = ground (
  arith,
  key_eq_iff a.key (available_of user currency),
  key_eq_iff a.key (held_of user currency),
  kind_eq_iff a.key.kind user_available,
  kind_eq_iff a.key.kind user_held,
  id_eq_iff a.key.user_id (some user),
  str_eq_iff a.key.currency currency,
  read_balances_lem user currency b rest available held v.2,
  read_balances_lem user currency b rest (get_account_balance a.id b) held v.2,
  read_balances_lem user currency b rest available (get_account_balance a.id b) v.2,
)

-- In valid books `getBalance` reports the balance at each of the two accounts, zero for one that
-- was never opened, and their sum.
pub get_balance_lem :
    (user currency : String) (b : Books)
    → IsValid b
    → let s = get_balance user currency b in
      (s.available ≡ balance_at (available_of user currency) b)
      × (s.held ≡ balance_at (held_of user currency) b)
      × (s.total
          ≡ balance_at (available_of user currency) b +ℤ balance_at (held_of user currency) b)
unfolding get_balance
get_balance_lem user currency b v =
    ground (arith, read_balances_lem user currency b b.accounts (pos 0) (pos 0) v.accounts)
