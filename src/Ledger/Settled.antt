-- ===== src/Ledger/Settled.antt =====
-- `settleAuthorization` of apps/api/src/ledger/ledger.service.ts.
use tenzopay.Base.{
  ℤ, pos, ◌-ℤ◌, neg_ℤ, ◌≤ℤ◌, ◌<ℤ◌, int_laws, String, none, [], ◌∷◌, length, ◌≡◌, ◌∙◌,
}
use tenzopay.Ledger.Books.{
  AccountKey, LedgerDirection, debit, credit, FeeType, FeeRow, EntryInput, Books, find_account,
  find_transaction,
}
use tenzopay.Ledger.Books
use tenzopay.Ledger.Movements.{available_of, held_of, system_of, settle_authorization_body}
use tenzopay.Ledger.Invariant.{IsValid}
use tenzopay.Ledger.View.{Legs}
use tenzopay.Ledger.Ensure.{
  ensured_id, ensured, ensure_account_lem, find-ensured_self, find-ensured_kept,
}
use tenzopay.Ledger.Moved.{Opened-ensured, Posted}
use tenzopay.Ledger.Pairs.{
  opened_two, first_id, second_id, first-found, second-found, opened_two-Opened,
}
use tenzopay.Ledger.Carries.{
  Carries-append, Carries-debit, Carries-settled, Carries-remainder, debit-IsBalanced, post_carried,
}
use tenzopay.Ledger.FeeParts.{
  fee_account, fee_entries_lem, fee_opened-Opened, fee_opened_kept, fee_credit-Carries, fee_rows,
  record_fee-Moved,
}

abbrev pub settlement_legs : String → String → ℤ → ℤ → ℤ → Legs
settlement_legs user currency held_amount settled fee =
    (held_of user currency, neg_ℤ held_amount)
    ∷ (system_of Books.system_card_settlement currency, settled)
    ∷ (fee_account currency, fee)
    ∷ (available_of user currency, held_amount -ℤ settled -ℤ fee)
    ∷ []

-- In valid books, for a positive hold, a settled amount and a fee that are not negative and a
-- key that is not posted, a settlement posts one transaction: it empties the hold, pays the
-- settled amount and the fee, which gets its row, and the rest of the hold goes back to
-- available, or what the hold lacks comes from there; no other balance changes.
pub settle_authorization_body-Posted :
    (user key : String) (held_amount settled fee : ℤ) (currency : String) (b : Books)
    → IsValid b
    → pos 0 <ℤ held_amount
    → pos 0 ≤ℤ settled
    → pos 0 ≤ℤ fee
    → find_transaction key b.transactions ≡ none
    → Posted b key
        (settlement_legs user currency held_amount settled fee)
        (fee_rows user Books.fx fee currency (length b.transactions))
        (settle_authorization_body user key held_amount settled fee currency b)
unfolding settle_authorization_body
settle_authorization_body-Posted user key held_amount settled fee currency b v p q r fresh =
    let j = available_of user currency in
    let k = held_of user currency in
    let m = system_of Books.system_card_settlement currency in
    let opened = opened_two j k b in
    let c = ensured m opened in
    let n = length b.transactions in
    let kept = fee_opened_kept fee currency c in
    let back =
      Carries-append _
        (Carries-settled _ m settled (ensured_id m opened) currency
          (kept m _ (find-ensured_self m opened)) q)
        (Carries-append _ (fee_credit-Carries fee currency c r) (
          Carries-remainder _ j (held_amount -ℤ settled -ℤ fee) (first_id j k b) currency
            (kept j _ (find-ensured_kept m opened j _ (first-found j k b))))) in
    let balanced =
      debit-IsBalanced (second_id j k b) held_amount currency _ p back.positive
        (back.sum ∙ omega int_laws) in
    let (b', posted, moved) =
      post_carried Books.card_settlement key _
        (settlement_legs user currency held_amount settled fee)
        (fee_opened-Opened fee currency c (Opened-ensured m (opened_two-Opened j k b v))) balanced
        (Carries-append _
          (Carries-debit _ k held_amount (second_id j k b) currency
            (kept k _ (find-ensured_kept m opened k _ (second-found j k b))) p)
          back)
        fresh in
    let (b'', recorded, moved') = record_fee-Moved user Books.fx fee currency v moved in
    (
      b'',
      rw (
        ensure_account_lem j b,
        ensure_account_lem k (ensured j b),
        ensure_account_lem m opened,
        fee_entries_lem fee currency c credit,
        posted,
        recorded,
      ),
      moved',
    )
