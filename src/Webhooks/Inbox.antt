-- ===== src/Webhooks/Inbox.antt =====
-- `receive`, `process`, `processLithic`, `replay` and `retryFailed` of
-- apps/api/src/webhooks/webhooks.service.ts. The rows stand in the order of `receivedAt`, a row's id is
-- the number of rows before it, and the queries of this table work. What an event does to the rest of
-- the program is a parameter; `receive` starts `process` without waiting for it, so that the two are
-- two steps.
use tenzopay.Base.{
  ℕ, zero, suc, ltb, leb, ◌==◌, String, str_eq, Option, none, some, Bool, true, false, ◌&&◌, ◌||◌,
  if◌then◌else◌, List, [], ◌∷◌, ◌++◌, length,
}
use tenzopay.Effects.{Thrown, Result, ok, err, Action}
use tenzopay.Ledger.Retry.{message_of}

pub data WebhookProvider : Type 0 where
  lithic alchemy : WebhookProvider

pub data WebhookStatus : Type 0 where
  received processing processed failed dead_letter skipped : WebhookStatus

pub record WebhookEvent (P : Type 0) : Type 0 where
  pub id : ℕ
  pub provider : WebhookProvider
  pub event_id : String
  pub event_type : String
  pub payload : P
  pub status : WebhookStatus
  pub retry_count : ℕ
  pub error : Option String

-- What the events of each kind do to the state `D` of the rest of the program.
pub record Handlers (D P : Type 0) : Type 0 where
  pub apply_provider_update : P → Action D (Unit {0})
  pub sync_card_transaction : P → Action D (Unit {0})
  pub sync_card_state : P → Action D (Unit {0})
  pub process_alchemy : P → Action D (Unit {0})

pub record Inbox (D P : Type 0) : Type 0 where
  pub events : List (WebhookEvent P)
  pub rest : D

abbrev provider_eq : WebhookProvider → WebhookProvider → Bool
provider_eq lithic lithic = true
provider_eq alchemy alchemy = true
provider_eq _ _ = false

abbrev pub is_processed : WebhookStatus → Bool
is_processed processed = true
is_processed _ = false

abbrev is_failed : WebhookStatus → Bool
is_failed failed = true
is_failed _ = false

module _ {P : Type 0} where
  -- `UNIQUE(provider, eventId)`
  unfoldable pub has_event : WebhookProvider → String → List (WebhookEvent P) → Bool
  has_event provider event_id [] = false
  has_event provider event_id (e ∷ rest) =
      (provider_eq e.provider provider && str_eq e.event_id event_id)
      || has_event provider event_id rest

  unfoldable pub find_webhook : ℕ → List (WebhookEvent P) → Option (WebhookEvent P)
  find_webhook id [] = none
  find_webhook id (e ∷ rest) =
      let more = find_webhook id rest in if e.id == id then some e else more

  -- `webhookEvent.update({ where: { id } })`
  unfoldable pub update_webhook :
      ℕ → (WebhookEvent P → WebhookEvent P) → List (WebhookEvent P) → List (WebhookEvent P)
  update_webhook id f [] = []
  update_webhook id f (e ∷ rest) =
      let more = update_webhook id f rest in if e.id == id then f e ∷ more else e ∷ more

  abbrev pub set_status : WebhookStatus → WebhookEvent P → WebhookEvent P
  set_status s e = record e { status = s }

  abbrev pub succeed : WebhookEvent P → WebhookEvent P
  succeed e = record e { status = processed; error = none }

  -- After five attempts an event is left to an operator.
  abbrev pub fail : ℕ → Thrown → WebhookEvent P → WebhookEvent P
  fail count x e = record e {
    status = if leb 5 count then dead_letter else failed;
    retry_count = count;
    error = some (message_of x);
  }

  -- The ids that `retryFailed` takes.
  unfoldable pub due : ℕ → List (WebhookEvent P) → List ℕ
  due zero events = []
  due (suc limit) [] = []
  due (suc limit) (e ∷ rest) =
      let taken = due limit rest in
      let passed = due (suc limit) rest in
      if is_failed e.status && ltb e.retry_count 5 then e.id ∷ taken else passed

module _ {D P : Type 0} (handlers : Handlers D P) where
  unfoldable pub process_lithic : String → P → Action D (Unit {0})
  process_lithic event_type payload s =
      if str_eq event_type "account_holder.verification"
        || str_eq event_type "account_holder.updated"
      then handlers.apply_provider_update payload s
      else if str_eq event_type "card_transaction.updated"
      then handlers.sync_card_transaction payload s
      else if str_eq event_type "card.updated"
      then handlers.sync_card_state payload s
      else (ok tt, s)

  unfoldable pub dispatch : WebhookEvent P → Action D (Unit {0})
  dispatch e s = elim e.provider [
    | lithic ↦ process_lithic e.event_type e.payload s
    | alchemy ↦ handlers.process_alchemy e.payload s
  ]

  -- The row behind the handler's result.
  abbrev pub finish_event : ℕ → ℕ → List (WebhookEvent P) → Result (Unit {0}) × D → Inbox D P
  finish_event id count events (ok _, d) = record {
    events = update_webhook id succeed events;
    rest = d;
  }
  finish_event id count events (err x, d) = record {
    events = update_webhook id (fail (suc count) x) events;
    rest = d;
  }

  unfoldable pub process_event : WebhookEvent P → Inbox D P → Inbox D P
  process_event e s =
      if is_processed e.status
      then s
      else finish_event e.id e.retry_count (update_webhook e.id (set_status processing) s.events)
          (dispatch e s.rest)

  -- Process one stored event.
  unfoldable pub process : ℕ → Inbox D P → Inbox D P
  process id s = elim (find_webhook id s.events) [ none ↦ s | some e ↦ process_event e s ]

  unfoldable pub replay : ℕ → Inbox D P → Inbox D P
  replay id s = process id (record s {
    events = update_webhook id (λ e. record e { status = received; error = none }) s.events;
  })

  unfoldable pub process_all : List ℕ → Inbox D P → Inbox D P
  process_all [] s = s
  process_all (id ∷ ids) s = process_all ids (process id s)

  -- Scheduled retry of transient failures.
  unfoldable pub retry_failed : ℕ → Inbox D P → Inbox D P
  retry_failed limit s = process_all (due limit s.events) s

-- Persist a delivery; `hash` is the hash of the raw body. The first component says whether it is new.
unfoldable pub receive :
    {D P : Type 0} → WebhookProvider → String → String → String → P → Inbox D P → Bool × Inbox D P
receive provider event_id hash event_type payload s =
    let key = if str_eq event_id "" then hash else event_id in
    if has_event provider key s.events then (false, s) else (
      true,
      record s {
        events =
            s.events
            ++ (record {
              id = length s.events;
              provider = provider;
              event_id = key;
              event_type = event_type;
              payload = payload;
              status = received;
              retry_count = 0;
              error = none;
            }
                ∷ []);
      },
    )
