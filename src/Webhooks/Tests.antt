-- ===== src/Webhooks/Tests.antt =====
-- Runs of the reports of card transactions (apps/api/src/webhooks/webhooks.service.ts).
use tenzopay.Base.{pos, str_eq, same_upper, codes_eq, none, some, [], ◌∷◌, ◌≡◌, refl}
use tenzopay.Effects.{ok}
use tenzopay.Ledger.Samples.{funded, funded-IsValid, stormy, stormy-IsHonest}
use tenzopay.Asa.State.{
  Card, CardTransaction, Desk, active, user_active, pending, find_event, find_card,
}
use tenzopay.Asa.Payload.{finite}
use tenzopay.Asa.Sound.{IsSound}
use tenzopay.Webhooks.Rows.{Report, Run, Amounts, find_row, map_transaction_status, status_eq}
use tenzopay.Webhooks.Sync.{read_amounts, sync_card_transaction}
use tenzopay.Webhooks.Redelivery.{IsReadable, sync_again}
use tenzopay.Webhooks.Settling.{
  Settles, sync_card_transaction-IsSound, sync_card_transaction-Settles,
}

abbrev card : Card
card = record {
  id = "card1";
  user_id = "u1";
  provider_card_token = "c1";
  status = active;
  per_transaction_limit = none;
  daily_limit = none;
  user_status = user_active;
}

abbrev authorized : CardTransaction
authorized = record {
  card_id = "card1";
  user_id = "u1";
  provider_transaction_token = "t1";
  status = pending;
  amount = pos 300;
  settled_amount = none;
  fee_amount = pos 10000;
  currency = "USD";
  settle_ledger_transaction_id = none;
  authorized_at = some 1000;
  created_at = 1000;
}

abbrev desk : Desk
desk = record { books = funded; cards = card ∷ []; transactions = authorized ∷ []; events = [] }

desk-IsSound : IsSound desk
unfolding find_event
desk-IsSound = record { valid = funded-IsValid; held = λ t h. cc }

-- The first attempt of every call of the ledger meets a conflict, and fails it where it is not retried.
abbrev run : Run
run = record { weather = stormy; fault = λ q. none; now = 2000 }

abbrev report : Report
report = record {
  token = some "t1";
  card_token = some "c1";
  status = "SETTLED";
  hold_amount = some (finite (pos 300) 0);
  cardholder_amount = none;
  cardholder_currency = none;
  settlement_amount = some (finite (pos 280) 0);
}

abbrev amounts : Amounts
amounts = record { hold_cents = pos 300; settlement_cents = pos 280 }

report-IsReadable : IsReadable run report "t1" "c1" card amounts desk
unfolding str_eq find_card read_amounts
report-IsReadable = record {
  has_token = refl;
  has_card_token = refl;
  known = refl;
  whole = refl;
  card_query = refl;
  row_query = refl;
  upsert_query = refl;
}

sync_again_example :
    ((sync_card_transaction run report (sync_card_transaction run report desk).1).0 ≡ ok tt)
    × ((sync_card_transaction run report (sync_card_transaction run report desk).1).1.books
        ≡ (sync_card_transaction run report desk).1.books)
sync_again_example =
    sync_again run run report "t1" "c1" card amounts desk report-IsReadable refl refl refl

sync_card_transaction-IsSound_run : IsSound (sync_card_transaction run report desk).1
sync_card_transaction-IsSound_run =
    sync_card_transaction-IsSound run report desk stormy-IsHonest desk-IsSound

sync_card_transaction-Settles_example : Settles "t1" (sync_card_transaction run report desk)
unfolding map_transaction_status same_upper codes_eq find_row str_eq status_eq
sync_card_transaction-Settles_example =
    sync_card_transaction-Settles run report "t1" "c1" card amounts desk stormy-IsHonest
      desk-IsSound report-IsReadable refl refl
