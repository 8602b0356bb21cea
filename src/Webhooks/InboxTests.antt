-- ===== src/Webhooks/InboxTests.antt =====
-- Runs of the inbox of apps/api/src/webhooks/webhooks.service.ts.
use tenzopay.Base.{ℕ, str_eq, none, [], ◌∷◌, ◌≡◌, refl}
use tenzopay.Effects.{ok, err, other}
use tenzopay.Webhooks.Inbox.{
  lithic, received, WebhookEvent, Handlers, Inbox, find_webhook, dispatch, process_lithic, process,
}
use tenzopay.Webhooks.InboxRules.{process-process}

-- A card transaction counts up, and every other event fails.
abbrev counting : Handlers ℕ ℕ
counting = record {
  apply_provider_update = λ p d. (err (other "down"), d);
  sync_card_transaction = λ p d. (ok tt, p);
  sync_card_state = λ p d. (err (other "down"), d);
  process_alchemy = λ p d. (err (other "down"), d);
}

abbrev event : WebhookEvent ℕ
event = record {
  id = 0;
  provider = lithic;
  event_id = "w1";
  event_type = "card_transaction.updated";
  payload = 7;
  status = received;
  retry_count = 0;
  error = none;
}

abbrev inbox : Inbox ℕ ℕ
inbox = record { events = event ∷ []; rest = 0 }

process-process_run : process counting 0 (process counting 0 inbox) ≡ process counting 0 inbox
unfolding find_webhook dispatch process_lithic str_eq
process-process_run = process-process counting 0 inbox event refl refl
