-- ===== src/Webhooks/InboxRules.antt =====
-- Deliveries and attempts of apps/api/src/webhooks/webhooks.service.ts.
use tenzopay.Base.{
  ℕ, ◌≤◌, ◌<◌, ◌==◌, ==_iff, sym, subst, String, some, true, Bool-cases, inl, inr, List, [], ◌∷◌,
  All, ◌≡◌, refl, ap, arith,
}
use tenzopay.Effects.{Result, ok, err}
use tenzopay.Webhooks.Inbox.{
  WebhookProvider, WebhookStatus, processing, failed, dead_letter, WebhookEvent, Handlers, Inbox,
  find_webhook, update_webhook, is_processed, set_status, succeed, dispatch, finish_event,
  process_event, process, replay, retry_failed, receive,
}

-- A failed event has attempts left, and a dead one has none.
abbrev pub IsCounted : WebhookStatus → ℕ → Type 0
IsCounted failed n = n < 5
IsCounted dead_letter n = 5 ≤ n
IsCounted _ n = Unit

abbrev pub AllCounted : {P : Type 0} → List (WebhookEvent P) → Type 0
AllCounted events = All (λ e. IsCounted e.status e.retry_count) events

module _ {P : Type 0} where
  find_webhook-update_webhook :
      (id : ℕ) (f : WebhookEvent P → WebhookEvent P)
      → ((e : WebhookEvent P) → (f e).id ≡ e.id)
      → (events : List (WebhookEvent P)) (e : WebhookEvent P) → find_webhook id events ≡ some e
      → find_webhook id (update_webhook id f events) ≡ some (f e)
  unfolding find_webhook update_webhook
  find_webhook-update_webhook id f keeps [] e h = cc
  find_webhook-update_webhook id f keeps (x ∷ rest) e h =
      ground (arith, keeps x, find_webhook-update_webhook id f keeps rest e)

module _ {D P : Type 0} (handlers : Handlers D P) where
  -- The inboxes that come about from an empty one.
  pub data Reached : Inbox D P → Type 0 where
    empty : (d : D) → Reached (record { events = []; rest = d })
    delivered :
        {s : Inbox D P} (provider : WebhookProvider) (event_id hash event_type : String)
        (payload : P)
        → Reached s
        → Reached (receive provider event_id hash event_type payload s).1
    attempted : {s : Inbox D P} (id : ℕ) → Reached s → Reached (process handlers id s)
    replayed : {s : Inbox D P} (id : ℕ) → Reached s → Reached (replay handlers id s)
    retried : {s : Inbox D P} (limit : ℕ) → Reached s → Reached (retry_failed handlers limit s)

  found_id :
      (id : ℕ) (events : List (WebhookEvent P)) (e : WebhookEvent P)
      → find_webhook id events ≡ some e
      → (e.id == id) ≡ true
  unfolding find_webhook
  found_id id [] e h = cc
  found_id id (x ∷ rest) e h = elim (Bool-cases (x.id == id)) [
    | inl here ↦
        let same : some x ≡ some e = rw here at h in
        let eq : x ≡ e = cc (same) in subst (λ y. (y.id == id) ≡ true) eq here
    | inr apart ↦ found_id id rest e (rw apart at h)
  ]

  process_done :
      (id : ℕ) (s : Inbox D P) (e : WebhookEvent P)
      → find_webhook id s.events ≡ some e
      → is_processed e.status ≡ true
      → process handlers id s ≡ s
  unfolding process process_event
  process_done id s e found done = rw (found, process) (rw (done, process_event))

  finish_ok :
      (id count : ℕ) (events : List (WebhookEvent P)) (r : Result (Unit {0}) × D)
      → r.0 ≡ ok tt
      → finish_event handlers id count events r
        ≡ record { events = update_webhook id succeed events; rest = r.1 }
  finish_ok id count events (ok x, d) h = refl
  finish_ok id count events (err x, d) h = cc

  -- An event whose handling has succeeded is not handled again: processing it a second time
  -- changes nothing.
  pub process-process :
      (id : ℕ) (s : Inbox D P) (e : WebhookEvent P)
      → find_webhook id s.events ≡ some e
      → (dispatch handlers e s.rest).0 ≡ ok tt
      → process handlers id (process handlers id s) ≡ process handlers id s
  unfolding process process_event
  process-process id s e found worked = elim (Bool-cases (is_processed e.status)) [
    | inl done ↦ ap (process handlers id) (process_done id s e found done)
    | inr undone ↦
        let begun = update_webhook id (set_status processing) s.events in
        let t : Inbox D P = record {
          events = update_webhook id succeed begun;
          rest = (dispatch handlers e s.rest).1;
        } in
        let here : e.id ≡ id = (==_iff e.id id).0 (found_id id s.events e found) in
        let first : process handlers id s ≡ t =
          rw (found, process)
            (rw (undone, process_event)
              (subst
                (λ i.
                  finish_event handlers i e.retry_count
                    (update_webhook i (set_status processing) s.events) (dispatch handlers e s.rest)
                  ≡ t)
                (sym here)
                (finish_ok id e.retry_count begun (dispatch handlers e s.rest) worked))) in
        let again =
          find_webhook-update_webhook id succeed (λ x. refl) begun (set_status processing e)
            (find_webhook-update_webhook id (set_status processing) (λ x. refl) s.events e found) in
        rw first (process_done id t (succeed (set_status processing e)) again refl)
  ]
