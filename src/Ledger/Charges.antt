-- ===== src/Ledger/Charges.antt =====
-- `chargeFee` of apps/api/src/ledger/ledger.service.ts.
use tenzopay.Base.{ℕ, ℤ, pos, neg_ℤ, ◌≤ℤ◌, ◌<ℤ◌, String, none, some, [], ◌∷◌, length, ◌≡◌, refl}
use tenzopay.Effects.{ok, err, insufficient_balance}
use tenzopay.Ledger.Books.{
  AccountKey, debit, credit, LedgerTransactionType, FeeType, FeeRow, EntryInput, Books,
  find_account, find_transaction, create_fee,
}
use tenzopay.Ledger.Books
use tenzopay.Ledger.Movements.{available_of, system_of, charge_fee_body, new_charge}
use tenzopay.Ledger.Invariant.{IsValid}
use tenzopay.Ledger.View.{balance_at}
use tenzopay.Ledger.Ensure.{ensured, ensure_account_lem}
use tenzopay.Ledger.Moved.{Posted, create_fee-Moved}
use tenzopay.Ledger.Pairs.{
  opened_two, first_id, first-balance, debit_first-Posted, require_funds_enough,
  require_funds_short,
}

abbrev pub charge_row : String → FeeType → ℤ → String → ℕ → FeeRow
charge_row user type amount currency id = record {
  user_id = user;
  type = type;
  amount = amount;
  currency = currency;
  ledger_transaction_id = id;
}

pub charge_fee_body_new :
    (user key : String) (amount : ℤ) (type : FeeType) (currency : String) (b : Books)
    → find_transaction key b.transactions ≡ none
    → charge_fee_body user key amount type currency b ≡ new_charge user key amount type currency b
unfolding charge_fee_body
charge_fee_body_new user key amount type currency b fresh = rw (fresh, charge_fee_body)

-- A key that is charged already: nothing is written.
pub charge_fee_body_known :
    (user key : String) (amount : ℤ) (type : FeeType) (currency : String) (b : Books) (id : ℕ)
    → find_transaction key b.transactions ≡ some id
    → charge_fee_body user key amount type currency b ≡ (ok id, b)
unfolding charge_fee_body
charge_fee_body_known user key amount type currency b id found = rw (found, charge_fee_body)

-- In valid books, a positive charge that the balance covers, under a key that is not posted,
-- moves its amount from available to fee revenue, with its one fee row; no other balance
-- changes.
pub charge_fee_body-Posted :
    (user key : String) (amount : ℤ) (type : FeeType) (currency : String) (b : Books)
    → IsValid b
    → pos 0 <ℤ amount
    → find_transaction key b.transactions ≡ none
    → amount ≤ℤ balance_at (available_of user currency) b
    → Posted b key
        ((available_of user currency, neg_ℤ amount)
          ∷ (system_of Books.system_fee_revenue currency, amount)
          ∷ [])
        (charge_row user type amount currency (length b.transactions) ∷ [])
        (charge_fee_body user key amount type currency b)
unfolding new_charge
charge_fee_body-Posted user key amount type currency b v p fresh covered =
    let j = available_of user currency in
    let k = system_of Books.system_fee_revenue currency in
    let (b', posted, moved) = debit_first-Posted j k b Books.fee key amount currency v p fresh in
    let (b'', recorded, moved') =
      create_fee-Moved (charge_row user type amount currency (length b.transactions)) v p refl
        moved in
    (
      b'',
      rw (
        charge_fee_body_new user key amount type currency b fresh,
        ensure_account_lem j b,
        ensure_account_lem k (ensured j b),
        require_funds_enough (first_id j k b) amount (balance_at j b) (opened_two j k b)
            (first-balance j k b v) covered,
        posted,
        recorded,
      ),
      moved',
    )

-- A charge that the balance does not cover is refused.
pub charge_fee_body_refused :
    (user key : String) (amount : ℤ) (type : FeeType) (currency : String) (b : Books)
    → IsValid b
    → find_transaction key b.transactions ≡ none
    → balance_at (available_of user currency) b <ℤ amount
    → (charge_fee_body user key amount type currency b).0
      ≡ err (insufficient_balance (balance_at (available_of user currency) b) amount)
unfolding new_charge
charge_fee_body_refused user key amount type currency b v fresh short =
    let j = available_of user currency in
    let k = system_of Books.system_fee_revenue currency in
    rw (
      charge_fee_body_new user key amount type currency b fresh,
      ensure_account_lem j b,
      ensure_account_lem k (ensured j b),
      require_funds_short (first_id j k b) amount (balance_at j b) (opened_two j k b)
          (first-balance j k b v) short,
    )
