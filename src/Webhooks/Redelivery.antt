-- ===== src/Webhooks/Redelivery.antt =====
-- A second delivery of a report to apps/api/src/webhooks/webhooks.service.ts.
use tenzopay.Base.{ℕ, String, Option, none, some, true, Bool-cases, inl, inr, ◌≡◌, refl, ◌∙◌}
use tenzopay.Effects.{ok}
use tenzopay.Asa.State.{CardTransactionStatus, Card, CardTransaction, Desk, find_card}
use tenzopay.Asa.Payload.{present}
use tenzopay.Asa.Paths.{query_works}
use tenzopay.Webhooks.Rows.{
  Report, Run, find_the_card, find_the_row, upsert_the_row, map_transaction_status, find_row,
  Amounts, upsert_row,
}
use tenzopay.Webhooks.Sync.{
  has_status, read_amounts, write_row, read_row, sync_row, sync_card, sync_tokens,
  sync_card_transaction,
}
use tenzopay.Webhooks.Marks.{IsMarked, upsert_row-IsMarked, apply_status-IsMarked}

-- A report that can be read: its tokens are there, its card is known, its amounts are whole, and the
-- queries up to the upsert work.
pub record IsReadable (run : Run) (report : Report) (token card_token : String) (card : Card)
    (amounts : Amounts) (s : Desk) : Type 0 where
  pub has_token : present report.token ≡ some token
  pub has_card_token : present report.card_token ≡ some card_token
  pub known : find_card card_token s.cards ≡ some card
  pub whole : read_amounts report ≡ ok amounts
  pub card_query : run.fault find_the_card ≡ none
  pub row_query : run.fault find_the_row ≡ none
  pub upsert_query : run.fault upsert_the_row ≡ none

module _ (run : Run) (report : Report) (token card_token : String) (card : Card) (amounts : Amounts)
    (s : Desk) (readable : IsReadable run report token card_token card amounts s) where
  -- Such a run comes to the writing of the row.
  pub sync_writes :
      sync_card_transaction run report s
      ≡ write_row run report token card amounts (find_row token s.transactions) tt s
  unfolding sync_card_transaction sync_tokens sync_card read_row sync_row
  sync_writes =
      rw (readable.has_token, readable.has_card_token, sync_tokens)
        (query_works (run.fault find_the_card) _ (sync_card run report token) s readable.card_query
          ∙ rw (readable.known, readable.whole, sync_card)
              (query_works (run.fault find_the_row) _ (sync_row run report token card amounts) s
                  readable.row_query
                ∙ query_works (run.fault upsert_the_row) _
                    (write_row run report token card amounts (find_row token s.transactions)) s
                    readable.upsert_query))

  write_row-IsMarked :
      (existing : Option CardTransaction)
      → find_row token s.transactions ≡ existing
      → IsMarked token
          (map_transaction_status report.status)
          s
          (write_row run report token card amounts existing tt s).1
  unfolding write_row
  write_row-IsMarked existing h =
      let mapped = map_transaction_status report.status in
      let s' = upsert_row run.now report token card amounts mapped existing s in
      let m = upsert_row-IsMarked token mapped run.now report card amounts s existing h in
      elim (Bool-cases (has_status existing mapped)) [
        | inl same ↦ rw (same, write_row) m
        | inr new ↦
            rw (new, write_row)
              (apply_status-IsMarked token mapped run card s amounts existing s' m)
      ]

  sync-IsMarked :
      IsMarked token (map_transaction_status report.status) s (sync_card_transaction run report s).1
  sync-IsMarked = rw sync_writes (write_row-IsMarked (find_row token s.transactions) refl)

pub upsert_row-events :
    (now : ℕ) (report : Report) (token : String) (card : Card) (amounts : Amounts)
    (mapped : CardTransactionStatus) (existing : Option CardTransaction) (s : Desk)
    → (upsert_row now report token card amounts mapped existing s).events ≡ s.events
unfolding upsert_row
upsert_row-events now report token card amounts mapped (some old) s = refl
upsert_row-events now report token card amounts mapped none s = refl

pub upsert_row-books :
    (now : ℕ) (report : Report) (token : String) (card : Card) (amounts : Amounts)
    (mapped : CardTransactionStatus) (existing : Option CardTransaction) (s : Desk)
    → (upsert_row now report token card amounts mapped existing s).books ≡ s.books
unfolding upsert_row
upsert_row-books now report token card amounts mapped (some old) s = refl
upsert_row-books now report token card amounts mapped none s = refl

write_row_marked :
    (run : Run) (report : Report) (token : String) (card : Card) (amounts : Amounts)
    (existing : Option CardTransaction) (s : Desk)
    → has_status existing (map_transaction_status report.status) ≡ true
    → ((write_row run report token card amounts existing tt s).0 ≡ ok tt)
      × ((write_row run report token card amounts existing tt s).1.books ≡ s.books)
unfolding write_row
write_row_marked run report token card amounts existing s marked =
    rw (marked, write_row) (refl, upsert_row-books run.now report token card amounts _ existing s)

-- A readable report delivered again, where the queries up to the upsert work, reaches the ledger
-- no more: it succeeds and leaves the books as they are, both when the first run went through,
-- and when the first run failed in the ledger.
pub sync_again :
    (run again : Run) (report : Report) (token card_token : String) (card : Card)
    (amounts : Amounts) (s : Desk)
    → IsReadable run report token card_token card amounts s
    → again.fault find_the_card ≡ none
    → again.fault find_the_row ≡ none
    → again.fault upsert_the_row ≡ none
    → let first = (sync_card_transaction run report s).1 in
      ((sync_card_transaction again report first).0 ≡ ok tt)
      × ((sync_card_transaction again report first).1.books ≡ first.books)
sync_again run again report token card_token card amounts s readable p q r =
    let first = (sync_card_transaction run report s).1 in
    let m = sync-IsMarked run report token card_token card amounts s readable in
    let again_readable : IsReadable again report token card_token card amounts first = record {
      has_token = readable.has_token;
      has_card_token = readable.has_card_token;
      known = rw m.same_cards readable.known;
      whole = readable.whole;
      card_query = p;
      row_query = q;
      upsert_query = r;
    } in
    rw (sync_writes again report token card_token card amounts first again_readable) (
      write_row_marked again report token card amounts (find_row token first.transactions) first
        m.marked)
