-- ===== src/Webhooks/Settling.antt =====
-- What a reported status does to the ledger (apps/api/src/webhooks/webhooks.service.ts).
use tenzopay.Base.{
  ℕ, ℤ, pos, ltb_ℤ, String, Option, none, some, false, Bool-cases, inl, inr, ◌≡◌, refl, ◌<>◌,
}
use tenzopay.Effects.{Result, Result-cases, ok, err, pure, continue}
use tenzopay.Ledger.Books.{Books, find_transaction}
use tenzopay.Ledger.CallSafety.{IsHonest, Final}
use tenzopay.Ledger.ExactlyOnce.{settle_authorization-Final, release_hold-Final}
use tenzopay.Asa.State.{CardTransactionStatus, settled, Card, CardTransaction, Desk, find_card}
use tenzopay.Asa.Payload.{present}
use tenzopay.Asa.Decide.{on_books}
use tenzopay.Asa.Paths.{query-P}
use tenzopay.Asa.Sound.{IsSound, same_desk, on_books-IsSound}
use tenzopay.Webhooks.Rows.{
  Report, Run, find_the_card, find_the_row, upsert_the_row, update_the_row, find_the_hold,
  map_transaction_status, status_eq, find_row, Amounts, upsert_row, fee_of, held_of_row, releases,
}
use tenzopay.Webhooks.Sync.{
  read_amounts, settled_usdt, refer_row, settle_row, release_row, apply_status, has_status,
  write_row, read_row, sync_row, sync_card, sync_tokens, sync_card_transaction,
}
use tenzopay.Webhooks.Redelivery.{upsert_row-books, upsert_row-events, IsReadable, sync_writes}

-- A settlement of the card transaction is posted.
abbrev pub IsSettled : String → Books → Type 0
IsSettled token b = (id : ℕ) × (find_transaction ("settle:" <> token) b.transactions ≡ some id)

-- How a settlement ends: sound, and with its posting if it succeeds.
abbrev pub Settles : String → Result (Unit {0}) × Desk → Type 0
Settles token (ok _, t) = IsSound t × IsSettled token t.books
Settles token (err e, t) = IsSound t

module _ (run : Run) (honest : IsHonest run.weather) (token : String) where
  refer_row-Settles :
      (s : Desk) (r : Result ℕ × Books)
      → Final run.weather s.books ("settle:" <> token) (λ n. n) r
      → IsSound (on_books r s).1
      → Settles token (continue (refer_row run token) (on_books r s))
  unfolding on_books refer_row
  refer_row-Settles s (ok id, b) g v =
      query-P (Settles token) (record s { books = b }) (run.fault update_the_row) _ _ (λ e. v)
        (same_desk refl refl v, (id, g.posted))
  refer_row-Settles s (err e, b) t v = v

  module _ (card : Card) (amounts : Amounts) where
    settle_row-Settles :
        (fee held_usdt : ℤ) (s : Desk)
        → IsSound s
        → Settles token (settle_row run token card amounts fee held_usdt s)
    unfolding settle_row
    settle_row-Settles fee held_usdt s v =
        let key = "settle:" <> token in
        let final =
          settle_authorization-Final run.weather honest s.books v.valid card.user_id key held_usdt
            (settled_usdt amounts) fee "USDT" in
        refer_row-Settles s _ final (on_books-IsSound run.weather honest s v key (λ n. n) _ final)

    released :
        (r : Result ℕ × Desk) → IsSound r.1 → IsSound (continue (λ id. pure {A = Unit {0}} tt) r).1
    released (ok id, t) v = v
    released (err e, t) v = v

    release_row-IsSound :
        (held_usdt : ℤ) (hold : Option ℕ) (s : Desk)
        → IsSound s
        → IsSound (release_row run token card held_usdt hold s).1
    unfolding release_row
    release_row-IsSound held_usdt none s v = v
    release_row-IsSound held_usdt (some hold) s v = elim (Bool-cases (ltb_ℤ (pos 0) held_usdt)) [
      | inr nothing ↦ rw (nothing, release_row) v
      | inl some_held ↦
          let key = "release:" <> token in
          let final =
            release_hold-Final run.weather honest s.books v.valid card.user_id key held_usdt
              "USDT" in
          rw (some_held, release_row)
            (released _ (on_books-IsSound run.weather honest s v key (λ n. n) _ final))
    ]

    Settles-IsSound : (r : Result (Unit {0}) × Desk) → Settles token r → IsSound r.1
    Settles-IsSound (ok x, t) e = e.0
    Settles-IsSound (err e, t) v = v

    apply_status-IsSound :
        (mapped : CardTransactionStatus) (existing : Option CardTransaction) (s : Desk)
        → IsSound s
        → IsSound (apply_status run token card amounts mapped existing s).1
    unfolding apply_status
    apply_status-IsSound mapped existing s v =
        let fee = fee_of existing in
        let held_usdt = held_of_row existing amounts in
        elim (Bool-cases (status_eq mapped settled)) [
          | inl settles ↦
              rw (settles, apply_status) (Settles-IsSound _ (settle_row-Settles fee held_usdt s v))
          | inr others ↦ elim (Bool-cases (releases mapped)) [
            | inr nothing ↦ rw (others, nothing, apply_status) v
            | inl ends ↦
                rw (others, ends, apply_status)
                  (query-P (λ r. IsSound r.1) s (run.fault find_the_hold) _ _ (λ e. v)
                    (release_row-IsSound held_usdt _ s v))
          ]
        ]

module _ (run : Run) (honest : IsHonest run.weather) (report : Report) where
  write_row-IsSound :
      (token : String) (card : Card) (amounts : Amounts) (existing : Option CardTransaction)
      (s : Desk)
      → IsSound s
      → IsSound (write_row run report token card amounts existing tt s).1
  unfolding write_row
  write_row-IsSound token card amounts existing s v =
      let mapped = map_transaction_status report.status in
      let s' = upsert_row run.now report token card amounts mapped existing s in
      let v' =
        same_desk (upsert_row-books run.now report token card amounts mapped existing s)
          (upsert_row-events run.now report token card amounts mapped existing s) v in
      elim (Bool-cases (has_status existing mapped)) [
        | inl same ↦ rw (same, write_row) v'
        | inr new ↦
            rw (new, write_row)
              (apply_status-IsSound run honest token card amounts mapped existing s' v')
      ]

  sync_card-IsSound :
      (token : String) (card : Option Card) (s : Desk)
      → IsSound s
      → IsSound (sync_card run report token card s).1
  unfolding sync_card read_row sync_row
  sync_card-IsSound token none s v = v
  sync_card-IsSound token (some card) s v = elim (Result-cases (read_amounts report)) [
    | inr (e, h) ↦ rw (h, sync_card) v
    | inl (amounts, h) ↦
        rw (h, sync_card)
          (query-P (λ r. IsSound r.1) s (run.fault find_the_row) _ _ (λ e. v)
            (query-P (λ r. IsSound r.1) s (run.fault upsert_the_row) _ _ (λ e. v)
              (write_row-IsSound token card amounts (find_row token s.transactions) s v)))
  ]

  sync_tokens-IsSound :
      (token card_token : Option String) (s : Desk)
      → IsSound s
      → IsSound (sync_tokens run report token card_token s).1
  unfolding sync_tokens
  sync_tokens-IsSound none card_token s v = v
  sync_tokens-IsSound (some token) none s v = v
  sync_tokens-IsSound (some token) (some card_token) s v =
      query-P (λ r. IsSound r.1) s (run.fault find_the_card) _ _ (λ e. v)
        (sync_card-IsSound token (find_card card_token s.cards) s v)

-- Whatever a report says, whatever queries fail, and whatever honest others do, a run keeps the
-- books valid and a posted hold behind every recorded approval.
pub sync_card_transaction-IsSound :
    (run : Run) (report : Report) (s : Desk)
    → IsHonest run.weather
    → IsSound s
    → IsSound (sync_card_transaction run report s).1
unfolding sync_card_transaction
sync_card_transaction-IsSound run report s honest v =
    sync_tokens-IsSound run honest report (present report.token) (present report.card_token) s v

-- A readable report of a settlement, for a card transaction that is not settled yet, either
-- fails or has its settlement posted under the key of the transaction; both ways the books stay
-- valid, with a posted hold behind every recorded approval.
pub sync_card_transaction-Settles :
    (run : Run) (report : Report) (token card_token : String) (card : Card) (amounts : Amounts)
    (s : Desk)
    → IsHonest run.weather
    → IsSound s
    → IsReadable run report token card_token card amounts s
    → map_transaction_status report.status ≡ settled
    → has_status (find_row token s.transactions) settled ≡ false
    → Settles token (sync_card_transaction run report s)
unfolding write_row apply_status status_eq
sync_card_transaction-Settles run report token card_token card amounts s honest v readable reported
      new =
    let existing = find_row token s.transactions in
    let s' = upsert_row run.now report token card amounts settled existing s in
    let v' =
      same_desk (upsert_row-books run.now report token card amounts settled existing s)
        (upsert_row-events run.now report token card amounts settled existing s) v in
    rw (sync_writes run report token card_token card amounts s readable) (
      rw (reported, write_row)
        (rw (new) (
          settle_row-Settles run honest token card amounts (fee_of existing)
            (held_of_row existing amounts) s' v')))
