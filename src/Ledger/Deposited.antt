-- ===== src/Ledger/Deposited.antt =====
-- `creditDeposit` and `reverseDeposit` of apps/api/src/ledger/ledger.service.ts.
use tenzopay.Base.{
  ℤ, pos, ◌-ℤ◌, neg_ℤ, ◌≤ℤ◌, ◌<ℤ◌, ltb_ℤ, int_laws, String, ◌<>◌, none, ◌||◌, false, [], ◌∷◌,
  length, ◌≡◌, ◌∙◌, arith,
}
use tenzopay.Ledger.Books.{
  AccountKey, LedgerDirection, debit, credit, FeeType, FeeRow, EntryInput, Books, find_account,
  find_transaction,
}
use tenzopay.Ledger.Books
use tenzopay.Ledger.Movements.{available_of, system_of, credit_deposit_body, reverse_deposit_body}
use tenzopay.Ledger.Invariant.{IsValid}
use tenzopay.Ledger.View.{Legs}
use tenzopay.Ledger.Ensure.{ensured, ensure_account_lem}
use tenzopay.Ledger.Moved.{Posted}
use tenzopay.Ledger.Pairs.{
  opened_two, first_id, second_id, first-found, second-found, opened_two-Opened,
}
use tenzopay.Ledger.Carries.{
  Carries-append, Carries-credit, Carries-debit, debit-IsBalanced, Carries-IsBalanced, post_carried,
}
use tenzopay.Ledger.FeeParts.{
  fee_account, fee_entries_lem, fee_opened-Opened, fee_opened_kept, fee_credit-Carries,
  fee_debit-Carries, fee_rows, record_fee-Moved,
}

abbrev pub deposit_legs : String → String → ℤ → ℤ → Legs
deposit_legs user currency amount fee =
    (system_of Books.system_deposit_clearing currency, neg_ℤ amount)
    ∷ (available_of user currency, amount -ℤ fee)
    ∷ (fee_account currency, fee)
    ∷ []

guard_passes :
    (amount fee : ℤ)
    → pos 0 ≤ℤ fee
    → fee <ℤ amount
    → (ltb_ℤ fee (pos 0) || ltb_ℤ amount fee) ≡ false
guard_passes amount fee p q = ground arith

-- In valid books, for a fee between zero and less than the amount and a deposit that is not
-- posted, a deposit is credited net of its fee, the fee goes to revenue with its row, and
-- clearing carries the whole amount; no other balance changes.
pub credit_deposit_body-Posted :
    (user id : String) (amount fee : ℤ) (currency : String) (b : Books)
    → IsValid b
    → pos 0 ≤ℤ fee
    → fee <ℤ amount
    → find_transaction ("deposit:" <> id <> ":confirm") b.transactions ≡ none
    → Posted b
        ("deposit:" <> id <> ":confirm")
        (deposit_legs user currency amount fee)
        (fee_rows user Books.deposit fee currency (length b.transactions))
        (credit_deposit_body user id amount fee currency b)
unfolding credit_deposit_body
credit_deposit_body-Posted user id amount fee currency b v p q fresh =
    let j = available_of user currency in
    let k = system_of Books.system_deposit_clearing currency in
    let c = opened_two j k b in
    let n = length b.transactions in
    let back =
      Carries-append _
        (Carries-credit _ j (amount -ℤ fee) (first_id j k b) currency
          (fee_opened_kept fee currency c j _ (first-found j k b)) (omega int_laws))
        (fee_credit-Carries fee currency c p) in
    let balanced =
      debit-IsBalanced (second_id j k b) amount currency _ (omega int_laws) back.positive
        (back.sum ∙ omega int_laws) in
    let (b', posted, moved) =
      post_carried Books.deposit_confirmed ("deposit:" <> id <> ":confirm") _
        (deposit_legs user currency amount fee)
        (fee_opened-Opened fee currency c (opened_two-Opened j k b v)) balanced
        (Carries-append _
          (Carries-debit _ k amount (second_id j k b) currency
            (fee_opened_kept fee currency c k _ (second-found j k b)) (omega int_laws))
          back)
        fresh in
    let (b'', recorded, moved') = record_fee-Moved user Books.deposit fee currency v moved in
    (
      b'',
      rw (
        ensure_account_lem j b,
        ensure_account_lem k (ensured j b),
        guard_passes amount fee p q,
        fee_entries_lem fee currency c credit,
        posted,
        recorded,
      ),
      moved',
    )

abbrev pub reversal_legs : String → String → ℤ → ℤ → Legs
reversal_legs user currency amount fee =
    (available_of user currency, neg_ℤ (amount -ℤ fee))
    ∷ (system_of Books.system_deposit_clearing currency, amount)
    ∷ (fee_account currency, neg_ℤ fee)
    ∷ []

-- In valid books, for a fee between zero and less than the amount and a reversal that is not
-- posted, the reversal posts the opposite legs, whatever the balance is; no other balance
-- changes.
pub reverse_deposit_body-Posted :
    (user id : String) (amount fee : ℤ) (currency : String) (b : Books)
    → IsValid b
    → pos 0 ≤ℤ fee
    → fee <ℤ amount
    → find_transaction ("deposit:" <> id <> ":reverse") b.transactions ≡ none
    → Posted b
        ("deposit:" <> id <> ":reverse")
        (reversal_legs user currency amount fee)
        []
        (reverse_deposit_body user id amount fee currency b)
unfolding reverse_deposit_body
reverse_deposit_body-Posted user id amount fee currency b v p q fresh =
    let j = available_of user currency in
    let k = system_of Books.system_deposit_clearing currency in
    let c = opened_two j k b in
    let carried =
      Carries-append _
        (Carries-debit _ j (amount -ℤ fee) (first_id j k b) currency
          (fee_opened_kept fee currency c j _ (first-found j k b)) (omega int_laws))
        (Carries-append _
          (Carries-credit _ k amount (second_id j k b) currency
            (fee_opened_kept fee currency c k _ (second-found j k b)) (omega int_laws))
          (fee_debit-Carries fee currency c p)) in
    let balanced = Carries-IsBalanced carried (omega arith) (omega int_laws) in
    rw
      (
        ensure_account_lem j b,
        ensure_account_lem k (ensured j b),
        fee_entries_lem fee currency c debit,
      )
      (post_carried Books.deposit_reversed ("deposit:" <> id <> ":reverse") _
        (reversal_legs user currency amount fee)
        (fee_opened-Opened fee currency c (opened_two-Opened j k b v)) balanced carried fresh)
