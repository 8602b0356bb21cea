-- ===== src/Webhooks/SweepTests.antt =====
-- Runs of the pass over the stale authorizations, and of the reports of a card and of the chain
-- (apps/api/src/webhooks/webhooks.service.ts).
use tenzopay.Base.{
  false, div_ℤ, String, pos, str_eq, same_upper, codes_eq, none, some, [], ◌∷◌, ◌≡◌, refl,
}
use tenzopay.Effects.{Result, ok, err, other}
use tenzopay.Ledger.Samples.{funded, stormy}
use tenzopay.Asa.State.{Card, CardTransaction, Desk, active, frozen, user_active, pending}
use tenzopay.Asa.State
use tenzopay.Webhooks.Rows.{status_eq}
use tenzopay.Webhooks.Lithic.{LithicTransactionResponse, ProviderTransaction}
use tenzopay.Webhooks.Sweep.{Turn, stale, sweep_stale_authorizations}
use tenzopay.Webhooks.SweepRules.{sweep_known}
use tenzopay.Texts.{units, big_int, trim, trim_start, trim_end, is_space, read_digits}
use tenzopay.Money.Units.{decimals_for, rescale, from_token_raw_value}
use tenzopay.Deposits.State.{ethereum_mainnet}
use tenzopay.Webhooks.Alchemy.{Activity, transfer_of}
use tenzopay.Webhooks.CardState.{sync_card_state, status_of, update_status}

abbrev card : Card
card = record {
  id = "card1";
  user_id = "u1";
  provider_card_token = "c1";
  status = active;
  per_transaction_limit = none;
  daily_limit = none;
  user_status = user_active;
}

abbrev old_authorization : CardTransaction
old_authorization = record {
  card_id = "card1";
  user_id = "u1";
  provider_transaction_token = "t1";
  status = pending;
  amount = pos 300;
  settled_amount = none;
  fee_amount = pos 10000;
  currency = "USD";
  settle_ledger_transaction_id = none;
  authorized_at = some 1000;
  created_at = 1000;
}

abbrev desk : Desk
desk = record {
  books = funded;
  cards = card ∷ [];
  transactions = old_authorization ∷ [];
  events = [];
}

-- The issuer says that the transaction is settled.
abbrev reported : ProviderTransaction
reported = record {
  transaction_token = "t1";
  card_token = "c1";
  status = State.settled;
  amount = pos 300;
  settled_amount = some (pos 300);
  currency = "USD";
}

abbrev turn : Turn
turn = record {
  get_transaction = λ token. ok (some reported);
  report = record { weather = stormy; fault = λ q. none; now = 900000000 };
  weather = stormy;
  mark_fault = none;
}

one_stale : stale 900000000 192 200 desk.transactions ≡ old_authorization ∷ []
unfolding stale status_eq
one_stale = refl

sweep_known_example :
    sweep_stale_authorizations none (λ token. turn) 900000000 192 desk
    ≡ (ok (record { checked = 1; resolved = 1; released = 0; unresolved = 0 }), desk)
unfolding stale status_eq
sweep_known_example = sweep_known (λ token. turn) 900000000 192 desk ((reported, refl), tt)

abbrev outage : String → Result LithicTransactionResponse
outage token = err (other "503")

paused_run :
    (sync_card_state none (record { card_token = some "c1"; state = "paused" }) desk).cards
    ≡ record card { status = frozen } ∷ []
unfolding sync_card_state status_of same_upper codes_eq update_status str_eq
paused_run = refl

-- 1.5 USDT, of a token with 18 decimals.
abbrev item : Activity
item = record {
  category = "token";
  raw_value = units "0x14d1120d7b160000";
  contract_address = some "0xUSDT";
  decimals = some 18;
  hash = some "0xt1";
  log_index = 2;
  block_number = none;
  to_address = "0xAB";
}

transfer_run :
    transfer_of
      (record {
        deposits = record {
          is_demo = false;
          usdt_contract = "0xusdt";
          min_amount = pos 0;
          confirmations = 12;
        };
        network = ethereum_mainnet;
        usdt_decimals = 6;
      })
      item
    ≡ ok (
        some (record {
          network = ethereum_mainnet;
          tx_hash = "0xt1";
          log_index = 2;
          to_address = "0xAB";
          contract_address = "0xUSDT";
          amount = pos 1500000;
        }))
unfolding transfer_of codes_eq big_int trim trim_start trim_end is_space read_digits
    from_token_raw_value decimals_for rescale same_upper div_ℤ str_eq
transfer_run = refl
