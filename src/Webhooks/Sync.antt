-- ===== src/Webhooks/Sync.antt =====
-- `syncCardTransaction` of apps/api/src/webhooks/webhooks.service.ts, on the rows of Webhooks/Rows.antt.
use tenzopay.Base.{
  ℕ, ℤ, pos, ◌*ℤ◌, ltb_ℤ, String, ◌<>◌, Option, none, some, Bool, false, if◌then◌else◌,
}
use tenzopay.Effects.{Result, ok, err, Action, continue, pure, ◌>>=◌, ◌>>◌}
use tenzopay.Ledger.Books.{find_transaction}
use tenzopay.Ledger.Methods.{settle_authorization, release_hold}
use tenzopay.Asa.State.{CardTransactionStatus, settled, Card, CardTransaction, Desk, find_card}
use tenzopay.Asa.Payload.{present, or_else}
use tenzopay.Asa.Decide.{query, on_books}
use tenzopay.Webhooks.Rows.{
  Report, Run, map_transaction_status, status_eq, whole_abs, find_row, update_row, Amounts,
  upsert_row, fee_of, held_of_row, releases, find_the_card, find_the_row, upsert_the_row,
  update_the_row, find_the_hold,
}

-- The row's reference to the posting.
unfoldable pub refer_row : Run → String → ℕ → Action Desk (Unit {0})
refer_row run token id = do
  query (run.fault update_the_row) (λ s. tt)
  (λ s. (
    ok tt,
    record s {
      transactions =
          update_row token (λ t. record t { settle_ledger_transaction_id = some id })
            s.transactions;
    },
  ))

-- The settled amount, or the hold where none is reported, in USDT.
abbrev pub settled_usdt : Amounts → ℤ
settled_usdt amounts =
    (if ltb_ℤ (pos 0) amounts.settlement_cents
      then amounts.settlement_cents
      else amounts.hold_cents)
    *ℤ pos 10000

-- `settleAuthorization`
unfoldable pub settle_row : Run → String → Card → Amounts → ℤ → ℤ → Action Desk (Unit {0})
settle_row run token card amounts fee held_usdt s = continue (refer_row run token) (
    on_books
      (settle_authorization run.weather card.user_id ("settle:" <> token) held_usdt
        (settled_usdt amounts) fee "USDT" s.books)
      s)

-- `releaseHold`, if the authorization placed a hold.
unfoldable pub release_row : Run → String → Card → ℤ → Option ℕ → Action Desk (Unit {0})
release_row run token card held_usdt none s = (ok tt, s)
release_row run token card held_usdt (some hold) s =
    if ltb_ℤ (pos 0) held_usdt
    then continue (λ id. pure tt)
        (on_books
          (release_hold run.weather card.user_id ("release:" <> token) held_usdt "USDT" s.books) s)
    else (ok tt, s)

-- What the ledger does about a status that is new.
unfoldable pub apply_status :
    Run
    → String
    → Card
    → Amounts
    → CardTransactionStatus
    → Option CardTransaction
    → Action Desk (Unit {0})
apply_status run token card amounts mapped existing s =
    let fee = fee_of existing in
    let held_usdt = held_of_row existing amounts in
    if status_eq mapped settled
    then settle_row run token card amounts fee held_usdt s
    else if releases mapped
    then (query (run.fault find_the_hold)
            (λ d. find_transaction ("auth:" <> token) d.books.transactions)
          >>= release_row run token card held_usdt)
        s
    else (ok tt, s)

abbrev pub has_status : Option CardTransaction → CardTransactionStatus → Bool
has_status none mapped = false
has_status (some old) mapped = status_eq old.status mapped

-- The upsert, and the ledger for a status that is new.
unfoldable pub write_row :
    Run
    → Report
    → String
    → Card
    → Amounts
    → Option CardTransaction
    → Unit {0}
    → Action Desk (Unit {0})
write_row run report token card amounts existing _ s =
    let mapped = map_transaction_status report.status in
    let s' = upsert_row run.now report token card amounts mapped existing s in
    if has_status existing mapped
    then (ok tt, s')
    else apply_status run token card amounts mapped existing s'

-- The row is written before the ledger is called.
unfoldable pub sync_row :
    Run → Report → String → Card → Amounts → Option CardTransaction → Action Desk (Unit {0})
sync_row run report token card amounts existing s =
    (query (run.fault upsert_the_row) (λ d. tt)
        >>= write_row run report token card amounts existing)
      s

abbrev amounts_of : Result ℤ → Result ℤ → Result Amounts
amounts_of (ok hold) (ok settlement) =
    ok (record { hold_cents = hold; settlement_cents = settlement })
amounts_of (ok hold) (err e) = err e
amounts_of (err e) _ = err e

unfoldable pub read_row : Run → Report → String → Card → Amounts → Action Desk (Unit {0})
read_row run report token card amounts s =
    (query (run.fault find_the_row) (λ d. find_row token d.transactions)
        >>= sync_row run report token card amounts)
      s

-- The amounts of a report, or the throw for one that is not whole.
unfoldable pub read_amounts : Report → Result Amounts
read_amounts report =
    amounts_of (whole_abs (or_else report.hold_amount report.cardholder_amount))
      (whole_abs report.settlement_amount)

unfoldable pub sync_card : Run → Report → String → Option Card → Action Desk (Unit {0})
sync_card run report token none s = (ok tt, s)
sync_card run report token (some card) s = elim (read_amounts report) [
  | err e ↦ (err e, s)
  | ok amounts ↦ read_row run report token card amounts s
]

-- The card, by its token.
unfoldable pub sync_tokens : Run → Report → Option String → Option String → Action Desk (Unit {0})
sync_tokens run report (some token) (some card_token) s =
    (query (run.fault find_the_card) (λ d. find_card card_token d.cards)
        >>= sync_card run report token)
      s
sync_tokens run report _ _ s = (ok tt, s)

unfoldable pub sync_card_transaction : Run → Report → Action Desk (Unit {0})
sync_card_transaction run report s =
    sync_tokens run report (present report.token) (present report.card_token) s
