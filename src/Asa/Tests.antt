-- ===== src/Asa/Tests.antt =====
-- Runs of apps/api/src/webhooks/asa.service.ts.
use tenzopay.Base.{pos, str_eq, none, some, [], ◌∷◌, ◌≡◌, refl}
use tenzopay.Effects.{other, ok, err}
use tenzopay.Ledger.Methods.{Weather}
use tenzopay.Ledger.Samples.{funded, funded-IsValid, stormy, stormy-IsHonest}
use tenzopay.Fees.Rates.{TransactionRates}
use tenzopay.Asa.State.{
  approved, Card, Desk, active, user_active, AuthorizationEvent, find_event, find_card,
}
use tenzopay.Asa.Payload.{AsaRequest, finite, Order, read_order, extract_amount, to_response_result}
use tenzopay.Asa.Payload
use tenzopay.Asa.Decide.{Call, decide}
use tenzopay.Asa.Sound.{IsSound, Answered}
use tenzopay.Asa.Backed.{decide-IsSound}
use tenzopay.Asa.Replay.{decide_replay, decide_twice, decide_unknown_card}

abbrev card_rates : TransactionRates
card_rates = record { bps = pos 0; flat = pos 10000; fx_bps = pos 0 }

-- Everything works, but the first attempt of the hold meets a conflict.
abbrev clear_call : Call
clear_call = record {
  weather = stormy;
  rates = ok card_rates;
  event_fault = none;
  card_fault = none;
  spent_fault = none;
  upsert_fault = none;
  record_fault = none;
  now = 1000;
  start_of_day = 900;
}

-- The settings cannot be read.
abbrev broken_call : Call
broken_call = record clear_call { rates = err (other "Timed out fetching a new connection") }

abbrev payload : AsaRequest
payload = record {
  token = some "e1";
  card_token = some "c1";
  amount = some (finite (pos 300) 0);
  hold_amount = none;
  cardholder_amount = none;
  cardholder_currency = none;
  merchant_amount = none;
  merchant_currency = none;
}

abbrev order : Order
order = record { event_token = "e1"; card_token = "c1"; amount_cents = pos 300 }

abbrev card : Card
card = record {
  id = "card1";
  user_id = "u1";
  provider_card_token = "c1";
  status = active;
  per_transaction_limit = some (pos 500);
  daily_limit = some (pos 1000);
  user_status = user_active;
}

abbrev desk : Desk
desk = record { books = funded; cards = card ∷ []; transactions = []; events = [] }

abbrev no_cards : Desk
no_cards = record { books = funded; cards = []; transactions = []; events = [] }

abbrev answered_row : AuthorizationEvent
answered_row = record {
  provider_event_token = "e1";
  card_token = "c1";
  user_id = some "u1";
  amount = pos 300;
  decision = approved;
  reason = none;
  available_balance_at_decision = some (pos 94990000);
}

abbrev answered_desk : Desk
answered_desk = record {
  books = funded;
  cards = card ∷ [];
  transactions = [];
  events = answered_row ∷ [];
}

desk-IsSound : IsSound desk
unfolding find_event
desk-IsSound = record { valid = funded-IsValid; held = λ t h. cc }

well_formed : read_order payload ≡ some order
unfolding read_order extract_amount str_eq
well_formed = refl

decide-IsSound_example :
    IsSound (decide broken_call payload desk).1
    × Answered (decide broken_call payload desk).0 "e1" (decide broken_call payload desk).1.books
decide-IsSound_example =
    decide-IsSound broken_call payload order desk stormy-IsHonest desk-IsSound well_formed

replayed_run :
    decide clear_call payload answered_desk ≡ (to_response_result approved, answered_desk)
unfolding find_event str_eq
replayed_run = decide_replay clear_call payload order answered_desk approved well_formed refl refl

decide_twice_example :
    decide clear_call payload (decide broken_call payload desk).1 ≡ decide broken_call payload desk
unfolding find_event find_card str_eq
decide_twice_example =
    decide_twice broken_call clear_call payload order card desk well_formed refl refl refl refl

decide_unknown_card_run :
    ((decide clear_call payload no_cards).0 ≡ Payload.suspected_fraud)
    × ((decide clear_call payload (decide clear_call payload no_cards).1).0
        ≡ Payload.insufficient_funds)
unfolding find_event find_card
decide_unknown_card_run =
    decide_unknown_card clear_call clear_call payload order no_cards well_formed refl refl refl refl
      refl refl

abbrev calm : Weather
calm = record { around = λ n. record { others = λ b. b; fault = none }; later = λ b. b }

abbrev calm_call : Call
calm_call = record clear_call { weather = calm }
