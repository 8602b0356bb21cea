-- ===== src/Ledger/Transfers.antt =====
-- `releaseHold`, `creditRefund` and `postAdjustment` of apps/api/src/ledger/ledger.service.ts.
use tenzopay.Base.{
  ℤ, pos, neg_ℤ, ◌≤ℤ◌, ◌<ℤ◌, ltb_ℤ, int_laws, String, none, [], ◌∷◌, true, false, ◌≡◌, arith,
}
use tenzopay.Ledger.Books.{
  AccountKey, debit, credit, LedgerTransactionType, FeeType, FeeRow, EntryInput, Books,
  find_account, find_transaction, create_fee,
}
use tenzopay.Ledger.Books
use tenzopay.Ledger.Movements.{
  available_of, held_of, system_of, release_hold_body, credit_refund_body, post_adjustment_body,
}
use tenzopay.Ledger.Invariant.{IsValid}
use tenzopay.Ledger.View.{balance_at}
use tenzopay.Ledger.Ensure.{ensured, ensure_account_lem}
use tenzopay.Ledger.Moved.{Posted}
use tenzopay.Ledger.Pairs.{
  opened_two, first_id, first-balance, debit_first-Posted, debit_second-Posted,
  require_funds_enough,
}

-- A release moves the amount from held to available, and touches no other balance.
pub release_hold_body-Posted :
    (user key : String) (amount : ℤ) (currency : String) (b : Books)
    → IsValid b
    → pos 0 <ℤ amount
    → find_transaction key b.transactions ≡ none
    → Posted b key
        ((held_of user currency, neg_ℤ amount) ∷ (available_of user currency, amount) ∷ [])
        []
        (release_hold_body user key amount currency b)
unfolding release_hold_body
release_hold_body-Posted user key amount currency b v p fresh =
    let j = available_of user currency in
    let k = held_of user currency in
    rw (ensure_account_lem j b, ensure_account_lem k (ensured j b))
      (debit_second-Posted j k b Books.card_authorization_reversal key amount currency v p fresh)

-- A refund moves the amount from card settlement to available.
pub credit_refund_body-Posted :
    (user key : String) (amount : ℤ) (currency : String) (b : Books)
    → IsValid b
    → pos 0 <ℤ amount
    → find_transaction key b.transactions ≡ none
    → Posted b key
        ((system_of Books.system_card_settlement currency, neg_ℤ amount)
          ∷ (available_of user currency, amount)
          ∷ [])
        []
        (credit_refund_body user key amount currency b)
unfolding credit_refund_body
credit_refund_body-Posted user key amount currency b v p fresh =
    let j = available_of user currency in
    let k = system_of Books.system_card_settlement currency in
    rw (ensure_account_lem j b, ensure_account_lem k (ensured j b))
      (debit_second-Posted j k b Books.card_refund key amount currency v p fresh)

pub is_positive : (a : ℤ) → pos 0 <ℤ a → ltb_ℤ (pos 0) a ≡ true
is_positive a h = ground arith

is_not_negative : (a : ℤ) → pos 0 <ℤ a → ltb_ℤ a (pos 0) ≡ false
is_not_negative a h = ground arith

is_negative : (a : ℤ) → a <ℤ pos 0 → ltb_ℤ a (pos 0) ≡ true
is_negative a h = ground arith

pub is_not_positive : (a : ℤ) → a <ℤ pos 0 → ltb_ℤ (pos 0) a ≡ false
is_not_positive a h = ground arith

-- A positive adjustment moves its amount from the adjustment account to available.
pub post_adjustment_body_credit :
    (user key : String) (amount : ℤ) (currency : String) (b : Books)
    → IsValid b
    → pos 0 <ℤ amount
    → find_transaction key b.transactions ≡ none
    → Posted b key
        ((system_of Books.system_adjustment currency, neg_ℤ amount)
          ∷ (available_of user currency, amount)
          ∷ [])
        []
        (post_adjustment_body user key amount currency b)
unfolding post_adjustment_body
post_adjustment_body_credit user key amount currency b v p fresh =
    let j = available_of user currency in
    let k = system_of Books.system_adjustment currency in
    rw
      (
        ensure_account_lem j b,
        ensure_account_lem k (ensured j b),
        is_positive amount p,
        is_not_negative amount p,
      )
      (debit_second-Posted j k b Books.admin_adjustment key amount currency v p fresh)

-- A negative adjustment that the balance covers moves its magnitude the other way.
pub post_adjustment_body_debit :
    (user key : String) (amount : ℤ) (currency : String) (b : Books)
    → IsValid b
    → amount <ℤ pos 0
    → neg_ℤ amount ≤ℤ balance_at (available_of user currency) b
    → find_transaction key b.transactions ≡ none
    → Posted b key
        ((available_of user currency, neg_ℤ (neg_ℤ amount))
          ∷ (system_of Books.system_adjustment currency, neg_ℤ amount)
          ∷ [])
        []
        (post_adjustment_body user key amount currency b)
unfolding post_adjustment_body
post_adjustment_body_debit user key amount currency b v p covered fresh =
    let j = available_of user currency in
    let k = system_of Books.system_adjustment currency in
    rw
      (
        ensure_account_lem j b,
        ensure_account_lem k (ensured j b),
        is_not_positive amount p,
        is_negative amount p,
        require_funds_enough (first_id j k b) (neg_ℤ amount) (balance_at j b) (opened_two j k b)
            (first-balance j k b v) covered,
      )
      (debit_first-Posted j k b Books.admin_adjustment key (neg_ℤ amount) currency v
        (omega int_laws) fresh)
