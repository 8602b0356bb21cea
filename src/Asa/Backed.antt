-- ===== src/Asa/Backed.antt =====
-- An approval of apps/api/src/webhooks/asa.service.ts has its hold in the ledger.
use tenzopay.Base.{ℤ, ◌+ℤ◌, String, ◌<>◌, Option, none, some, true, ◌≡◌, refl, sym, subst}
use tenzopay.Effects.{
  insufficient_balance, ledger_imbalance, prisma_known, app_error, other, Result, ok, err,
}
use tenzopay.Ledger.Books.{Books}
use tenzopay.Ledger.Movements.{Hold}
use tenzopay.Ledger.Methods.{place_hold}
use tenzopay.Ledger.CallSafety.{IsHonest, Final}
use tenzopay.Ledger.ExactlyOnce.{place_hold-Final}
use tenzopay.Money.Units.{usd_cents_to_usdt}
use tenzopay.Fees.Rates.{TransactionRates, transaction_fee}
use tenzopay.Asa.State.{
  AuthorizationDecision, approved, insufficient_funds, velocity_exceeded, error, Card,
  AuthorizationEvent, Desk, find_event, find_card, spent_today, card_paused, card_closed,
  CardStatus, active, frozen, closed, UserStatus,
}
use tenzopay.Asa.State
use tenzopay.Asa.Payload.{AsaRequest, AsaResult, Order, read_order, is_foreign}
use tenzopay.Asa.Decide.{
  Call, event_row, upsert_pending, on_books, after_hold, hold_with, check_card, resolve_card,
  answer_event, decide_order, fail_closed, classify_failure, decide,
}
use tenzopay.Asa.Paths.{is_decline, query-P, check_card-P}
use tenzopay.Asa.Sound.{
  on_books-IsSound, IsHeld, IsSound, Decided, Answered, answered, decided, Ends,
  record_event-IsSound, finish-Ends, same_desk, upsert_pending-books, upsert_pending-events,
}

declined :
    (d : AuthorizationDecision) (token : String) (b : Books)
    → is_decline d ≡ true
    → Decided d token b
declined approved token b h = cc
declined State.insufficient_funds token b h = tt
declined State.velocity_exceeded token b h = tt
declined State.card_paused token b h = tt
declined State.card_closed token b h = tt
declined State.unauthorized_merchant token b h = tt
declined State.suspected_fraud token b h = tt
declined State.error token b h = tt

module _ (call : Call) (honest : IsHonest call.weather) (payload : AsaRequest) (order : Order)
    (s : Desk) (v : IsSound s) where
  module _ (card : Card) where
    after_hold-Ends :
        (fee : ℤ) (r : Result Hold × Books)
        → Final call.weather s.books ("auth:" <> order.event_token) (λ h. h.ledger_transaction_id) r
        → IsSound (on_books r s).1
        → Ends order.event_token (after_hold call payload order card fee (on_books r s))
    unfolding on_books after_hold
    after_hold-Ends fee (ok h, b) g u =
        let s' = record s { books = b } in
        let t = upsert_pending call payload order card fee s' in
        let p = upsert_pending-books call payload order card fee s' in
        finish-Ends call order card.user_id approved none (some h.available_after) t
          (same_desk p (upsert_pending-events call payload order card fee s') u)
          (subst (IsHeld order.event_token) (sym p) (h.ledger_transaction_id, g.posted))
    after_hold-Ends fee (err (insufficient_balance a x), b) g u =
        finish-Ends call order card.user_id insufficient_funds (some "insufficient_balance")
          (some a) (record s { books = b }) u tt
    after_hold-Ends fee (err (ledger_imbalance d), b) g u = u
    after_hold-Ends fee (err (prisma_known a m x), b) g u = u
    after_hold-Ends fee (err (app_error a x), b) g u = u
    after_hold-Ends fee (err (other x), b) g u = u

    hold_with-Ends :
        (rates : TransactionRates)
        → Ends order.event_token (hold_with call payload order card rates s)
    unfolding hold_with
    hold_with-Ends rates =
        let spend = usd_cents_to_usdt order.amount_cents in
        let fee = transaction_fee rates spend (is_foreign payload) in
        let key = "auth:" <> order.event_token in
        let r = place_hold call.weather card.user_id key (spend +ℤ fee) "USDT" s.books in
        let final =
          place_hold-Final call.weather honest s.books v.valid card.user_id key (spend +ℤ fee)
            "USDT" in
        after_hold-Ends fee r final
          (on_books-IsSound call.weather honest s v key (λ h. h.ledger_transaction_id) r final)

    check_card-Ends : Ends order.event_token (check_card call payload order card s)
    check_card-Ends =
        check_card-P call payload order card s (Ends order.event_token) (λ e. v)
          (λ d reason h.
            finish-Ends call order card.user_id d reason none s v
              (declined d order.event_token s.books h))
          (λ rates h c. hold_with-Ends rates)

  resolve_card-Ends :
      (card : Option Card) → Ends order.event_token (resolve_card call payload order card s)
  unfolding resolve_card
  resolve_card-Ends (some card) = check_card-Ends card
  resolve_card-Ends none = (
    record_event-IsSound call.record_fault (event_row order none error (some "unknown_card") none) s
        v tt,
    tt,
  )

  answer_event-Ends :
      (d : Option AuthorizationDecision)
      → find_event order.event_token s.events ≡ d
      → Ends order.event_token (answer_event call payload order d s)
  unfolding answer_event
  answer_event-Ends (some d) h =
      (v, answered d order.event_token s.books (decided d order.event_token s v h))
  answer_event-Ends none h =
      query-P (Ends order.event_token) s call.card_fault _ _ (λ e. v)
        (resolve_card-Ends (find_card order.card_token s.cards))

  decide_order-Ends : Ends order.event_token (decide_order call payload order s)
  unfolding decide_order
  decide_order-Ends =
      query-P (Ends order.event_token) s call.event_fault _ _ (λ e. v)
        (answer_event-Ends (find_event order.event_token s.events) refl)

  closed-Ends :
      (r : Result AsaResult × Desk)
      → Ends order.event_token r
      → IsSound (fail_closed call order r).1
        × Answered (fail_closed call order r).0 order.event_token (fail_closed call order r).1.books
  unfolding fail_closed
  closed-Ends (ok r, t) e = e
  closed-Ends (err e, t) u = (
    record_event-IsSound call.record_fault
        (event_row order none error (some (classify_failure e)) none) t u tt,
    tt,
  )

-- Fail closed: whatever queries fail, and whatever conflicts, aborts and writes of honest others
-- the ledger meets, a decision on a well-formed request keeps the books valid and a posted hold
-- behind every recorded approval, and when it answers an approval, the hold of this event is
-- posted.
pub decide-IsSound :
    (call : Call) (payload : AsaRequest) (order : Order) (s : Desk)
    → IsHonest call.weather
    → IsSound s
    → read_order payload ≡ some order
    → IsSound (decide call payload s).1
      × Answered (decide call payload s).0 order.event_token (decide call payload s).1.books
unfolding decide
decide-IsSound call payload order s honest v h =
    rw (h, decide)
      (closed-Ends call honest payload order s v (decide_order call payload order s)
        (decide_order-Ends call honest payload order s v))
