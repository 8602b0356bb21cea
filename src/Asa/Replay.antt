-- ===== src/Asa/Replay.antt =====
-- Replays of an authorization event (apps/api/src/webhooks/asa.service.ts).
use tenzopay.Base.{ℤ, String, str_eq_iff, Option, none, some, ◌≡◌, refl, ap, ◌∙◌, arith}
use tenzopay.Effects.{
  Thrown, insufficient_balance, ledger_imbalance, prisma_known, app_error, other, Result, ok, err,
}
use tenzopay.Ledger.Books.{Books}
use tenzopay.Ledger.Movements.{Hold}
use tenzopay.Asa.State.{
  AuthorizationDecision, approved, insufficient_funds, error, Card, AuthorizationEvent, Desk,
  find_event, find_card,
}
use tenzopay.Asa.Payload.{AsaRequest, AsaResult, Order, read_order, is_foreign, to_response_result}
use tenzopay.Asa.Payload
use tenzopay.Asa.Decide.{
  Call, record_event, event_row, finish, upsert_pending, on_books, after_hold, hold_with,
  check_card, resolve_card, answer_event, decide_order, fail_closed, classify_failure, decide,
}
use tenzopay.Asa.Paths.{query_works, query-P, check_card-P}
use tenzopay.Asa.Sound.{upsert_pending-events}

-- The event has a recorded decision that gives this answer; after an error it has none yet.
abbrev Recorded : String → Result AsaResult × Desk → Type 0
Recorded token (ok r, s) =
    (d : AuthorizationDecision) × (find_event token s.events ≡ some d) × (to_response_result d ≡ r)
Recorded token (err e, s) = find_event token s.events ≡ none

record_event-found :
    (fault : Option Thrown) (row : AuthorizationEvent) (s : Desk)
    → fault ≡ none
    → find_event row.provider_event_token s.events ≡ none
    → find_event row.provider_event_token (record_event fault row s).events ≡ some row.decision
unfolding record_event find_event
record_event-found (some e) row s h fresh = cc
record_event-found none row s h fresh =
    ground (arith, str_eq_iff row.provider_event_token row.provider_event_token)

-- A recorded event is answered with its recorded decision, and nothing is written: there is no second
-- hold.
pub decide_replay :
    (call : Call) (payload : AsaRequest) (order : Order) (s : Desk) (d : AuthorizationDecision)
    → read_order payload ≡ some order
    → call.event_fault ≡ none
    → find_event order.event_token s.events ≡ some d
    → decide call payload s ≡ (to_response_result d, s)
unfolding decide decide_order fail_closed answer_event
decide_replay call payload order s d h q found =
    let e : decide_order call payload order s ≡ (ok (to_response_result d), s) =
      query_works call.event_fault _ (answer_event call payload order) s q ∙ rw found in
    rw (h, decide) (ap (fail_closed call order) e)

module _ (call : Call) (payload : AsaRequest) (order : Order)
    (recorded : call.record_fault ≡ none) where
  finish-Recorded :
      (user : String) (d : AuthorizationDecision) (reason : Option String) (balance : Option ℤ)
      (s : Desk)
      → find_event order.event_token s.events ≡ none
      → Recorded order.event_token (finish call order user d reason balance s)
  unfolding finish
  finish-Recorded user d reason balance s fresh =
      let row = event_row order (some user) d reason balance in
      (d, record_event-found call.record_fault row s recorded fresh, refl)

  module _ (card : Card) (s : Desk) (fresh : find_event order.event_token s.events ≡ none) where
    after_hold-Recorded :
        (fee : ℤ) (r : Result Hold × Books)
        → Recorded order.event_token (after_hold call payload order card fee (on_books r s))
    unfolding on_books after_hold
    after_hold-Recorded fee (ok h, b) =
        let s' = record s { books = b } in
        finish-Recorded card.user_id approved none (some h.available_after)
          (upsert_pending call payload order card fee s')
          (ap (find_event order.event_token) (upsert_pending-events call payload order card fee s')
            ∙ fresh)
    after_hold-Recorded fee (err (insufficient_balance a x), b) =
        finish-Recorded card.user_id insufficient_funds (some "insufficient_balance") (some a)
          (record s { books = b }) fresh
    after_hold-Recorded fee (err (ledger_imbalance d), b) = fresh
    after_hold-Recorded fee (err (prisma_known a m x), b) = fresh
    after_hold-Recorded fee (err (app_error a x), b) = fresh
    after_hold-Recorded fee (err (other x), b) = fresh

    check_card-Recorded : Recorded order.event_token (check_card call payload order card s)
    unfolding hold_with
    check_card-Recorded =
        check_card-P call payload order card s (Recorded order.event_token) (λ e. fresh)
          (λ d reason h. finish-Recorded card.user_id d reason none s fresh)
          (λ rates h c. after_hold-Recorded _ _)

    decide_order-Recorded :
        find_card order.card_token s.cards ≡ some card
        → Recorded order.event_token (decide_order call payload order s)
    unfolding decide_order answer_event resolve_card
    decide_order-Recorded known =
        query-P (Recorded order.event_token) s call.event_fault _ _ (λ e. fresh)
          (rw fresh (
            query-P (Recorded order.event_token) s call.card_fault _ _ (λ e. fresh)
              (rw known check_card-Recorded)))

  closed-Recorded :
      (r : Result AsaResult × Desk)
      → Recorded order.event_token r
      → (d : AuthorizationDecision) × (find_event order.event_token
            (fail_closed call order r).1.events
          ≡ some d)
        × (to_response_result d ≡ (fail_closed call order r).0)
  unfolding fail_closed to_response_result
  closed-Recorded (ok r, s) x = x
  closed-Recorded (err e, s) fresh =
      let row = event_row order none error (some (classify_failure e)) none in
      (error, record_event-found call.record_fault row s recorded fresh, refl)

-- The second delivery of a new event, for a card that is known, is answered as the first one was
-- and changes nothing, whatever else the first one met, if the decision could be recorded and is
-- found again.
pub decide_twice :
    (call again : Call) (payload : AsaRequest) (order : Order) (card : Card) (s : Desk)
    → read_order payload ≡ some order
    → find_event order.event_token s.events ≡ none
    → find_card order.card_token s.cards ≡ some card
    → call.record_fault ≡ none
    → again.event_fault ≡ none
    → decide again payload (decide call payload s).1 ≡ decide call payload s
unfolding decide
decide_twice call again payload order card s h fresh known recorded clear =
    let first = fail_closed call order (decide_order call payload order s) in
    let (d, found, e) =
      closed-Recorded call payload order recorded (decide_order call payload order s)
        (decide_order-Recorded call payload order recorded card s fresh known) in
    let opened : decide call payload s ≡ first = rw (h, decide) in
    rw opened (decide_replay again payload order first.1 d h clear found ∙ ap (λ x. (x, first.1)) e)

unknown_first :
    (call : Call) (payload : AsaRequest) (order : Order) (s : Desk)
    → read_order payload ≡ some order
    → find_event order.event_token s.events ≡ none
    → find_card order.card_token s.cards ≡ none
    → call.event_fault ≡ none
    → call.card_fault ≡ none
    → decide call payload s ≡ (
      Payload.suspected_fraud,
      record_event call.record_fault (event_row order none error (some "unknown_card") none) s,
    )
unfolding decide decide_order fail_closed answer_event resolve_card
unknown_first call payload order s h fresh unknown p q =
    let row = event_row order none error (some "unknown_card") none in
    let e : decide_order call payload order s
        ≡ (ok Payload.suspected_fraud, record_event call.record_fault row s) =
      query_works call.event_fault _ (answer_event call payload order) s p
      ∙ rw fresh
          (query_works call.card_fault _ (resolve_card call payload order) s q ∙ rw unknown) in
    rw (h, decide) (ap (fail_closed call order) e)

-- An unknown card is the exception: where the queries work, the first delivery of a new event is
-- answered SUSPECTED_FRAUD, and the second one INSUFFICIENT_FUNDS, since the decision is
-- recorded as ERROR.
pub decide_unknown_card :
    (call again : Call) (payload : AsaRequest) (order : Order) (s : Desk)
    → read_order payload ≡ some order
    → find_event order.event_token s.events ≡ none
    → find_card order.card_token s.cards ≡ none
    → call.event_fault ≡ none
    → call.card_fault ≡ none
    → call.record_fault ≡ none
    → again.event_fault ≡ none
    → ((decide call payload s).0 ≡ Payload.suspected_fraud)
      × ((decide again payload (decide call payload s).1).0 ≡ Payload.insufficient_funds)
unfolding to_response_result
decide_unknown_card call again payload order s h fresh unknown p q recorded clear =
    let row = event_row order none error (some "unknown_card") none in
    let first = unknown_first call payload order s h fresh unknown p q in
    let found = record_event-found call.record_fault row s recorded fresh in
    rw first (
      refl,
      ap (λ r. r.0)
          (decide_replay again payload order (record_event call.record_fault row s) error h clear
            found),
    )
