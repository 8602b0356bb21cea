-- ===== src/Ledger/Holds.antt =====
-- `placeHold` of apps/api/src/ledger/ledger.service.ts.
use tenzopay.Base.{ℕ, ℤ, pos, ◌-ℤ◌, neg_ℤ, ◌≤ℤ◌, ◌<ℤ◌, String, none, some, [], ◌∷◌, length, ◌≡◌}
use tenzopay.Effects.{Result, ok, err, insufficient_balance}
use tenzopay.Ledger.Books.{
  AccountKey, debit, credit, LedgerTransactionType, FeeType, FeeRow, EntryInput, Books,
  find_account, find_transaction, create_fee,
}
use tenzopay.Ledger.Books
use tenzopay.Ledger.Balances.{get_balance}
use tenzopay.Ledger.Movements.{available_of, held_of, Hold, place_hold_body, new_hold}
use tenzopay.Ledger.Invariant.{IsValid}
use tenzopay.Ledger.View.{balance_at}
use tenzopay.Ledger.Ensure.{ensured, ensure_account_lem}
use tenzopay.Ledger.Moved.{Moved}
use tenzopay.Ledger.Pairs.{
  opened_two, first_id, first-balance, debit_first-Posted, require_funds_enough,
  require_funds_short,
}

abbrev pub hold_result : Books → ℕ → ℤ → Result Hold × Books
hold_result b id after = (ok (record { ledger_transaction_id = id; available_after = after }), b)

pub place_hold_body_new :
    (user key : String) (amount : ℤ) (currency : String) (b : Books)
    → find_transaction key b.transactions ≡ none
    → place_hold_body user key amount currency b ≡ new_hold user key amount currency b
unfolding place_hold_body
place_hold_body_new user key amount currency b fresh = rw (fresh, place_hold_body)

-- A key that is held already: nothing is written, and the balance is reported as it stands.
pub place_hold_body_known :
    (user key : String) (amount : ℤ) (currency : String) (b : Books) (id : ℕ)
    → find_transaction key b.transactions ≡ some id
    → place_hold_body user key amount currency b
      ≡ hold_result b id (get_balance user currency b).available
unfolding place_hold_body
place_hold_body_known user key amount currency b id found = rw (found, place_hold_body)

-- In valid books, a positive hold that the available balance covers, under a key that is not
-- posted, moves its amount from available to held, changes no other balance, and reports what is
-- left.
pub place_hold_body-Posted :
    (user key : String) (amount : ℤ) (currency : String) (b : Books)
    → IsValid b
    → pos 0 <ℤ amount
    → find_transaction key b.transactions ≡ none
    → amount ≤ℤ balance_at (available_of user currency) b
    → (b' : Books) × (place_hold_body user key amount currency b
        ≡ hold_result b'
            (length b.transactions)
            (balance_at (available_of user currency) b -ℤ amount))
      × Moved b key
          ((available_of user currency, neg_ℤ amount) ∷ (held_of user currency, amount) ∷ [])
          []
          (length b.transactions)
          b'
unfolding new_hold
place_hold_body-Posted user key amount currency b v p fresh covered =
    let j = available_of user currency in
    let k = held_of user currency in
    let (b', posted, moved) =
      debit_first-Posted j k b Books.card_authorization key amount currency v p fresh in
    (
      b',
      rw (
        place_hold_body_new user key amount currency b fresh,
        ensure_account_lem j b,
        ensure_account_lem k (ensured j b),
        require_funds_enough (first_id j k b) amount (balance_at j b) (opened_two j k b)
            (first-balance j k b v) covered,
        posted,
      ),
      moved,
    )

-- In valid books, a hold that the available balance does not cover, under a key that is not
-- posted, is refused with that balance and the amount.
pub place_hold_body_refused :
    (user key : String) (amount : ℤ) (currency : String) (b : Books)
    → IsValid b
    → find_transaction key b.transactions ≡ none
    → balance_at (available_of user currency) b <ℤ amount
    → (place_hold_body user key amount currency b).0
      ≡ err (insufficient_balance (balance_at (available_of user currency) b) amount)
unfolding new_hold
place_hold_body_refused user key amount currency b v fresh short =
    let j = available_of user currency in
    let k = held_of user currency in
    rw (
      place_hold_body_new user key amount currency b fresh,
      ensure_account_lem j b,
      ensure_account_lem k (ensured j b),
      require_funds_short (first_id j k b) amount (balance_at j b) (opened_two j k b)
          (first-balance j k b v) short,
    )
