-- ===== src/Asa/Decide.antt =====
-- `decide`, `finish`, `record`, `upsertPendingTransaction` and `classifyFailure` of
-- apps/api/src/webhooks/asa.service.ts.
use tenzopay.Base.{
  ℕ, ℤ, pos, ◌+ℤ◌, ltb_ℤ, eqb_ℤ, String, ◌<>◌, lower_includes, Option, none, some, Bool, false, not,
  ◌||◌, if◌then◌else◌, ◌∷◌,
}
use tenzopay.Effects.{Thrown, insufficient_balance, Result, ok, err, Action, ◌>>=◌}
use tenzopay.Ledger.Books.{Books}
use tenzopay.Ledger.Retry.{message_of}
use tenzopay.Ledger.Movements.{Hold}
use tenzopay.Ledger.Methods.{Weather, place_hold}
use tenzopay.Money.Units.{usd_cents_to_usdt}
use tenzopay.Fees.Rates.{TransactionRates, transaction_fee}
use tenzopay.Asa.State.{
  AuthorizationDecision, approved, insufficient_funds, velocity_exceeded, card_paused, card_closed,
  error, CardStatus, active, frozen, closed, UserStatus, user_active, Card, pending,
  AuthorizationEvent, Desk, find_event, find_card, has_transaction, spent_today,
}
use tenzopay.Asa.Payload.{AsaRequest, AsaResult, Order, read_order, is_foreign, to_response_result}
use tenzopay.Asa.Payload

-- What one call of `decide` meets: the weather of the ledger, the rates that the settings give or
-- their error, the error with which each other query of the database fails, if it does, and the clock.
pub record Call : Type 0 where
  pub weather : Weather
  pub rates : Result TransactionRates
  pub event_fault : Option Thrown
  pub card_fault : Option Thrown
  pub spent_fault : Option Thrown
  pub upsert_fault : Option Thrown
  pub record_fault : Option Thrown
  pub now : ℕ
  pub start_of_day : ℕ

-- A query that may fail.
unfoldable pub query : {A : Type 0} → Option Thrown → (Desk → A) → Action Desk A
query none f s = (ok (f s), s)
query (some e) f s = (err e, s)

-- `record`: the row of the decision; a failure and a duplicate are swallowed.
unfoldable pub record_event : Option Thrown → AuthorizationEvent → Desk → Desk
record_event (some e) row s = s
record_event none row s = elim (find_event row.provider_event_token s.events) [
  | some d ↦ s
  | none ↦ record s { events = row ∷ s.events }
]

abbrev pub event_row :
    Order → Option String → AuthorizationDecision → Option String → Option ℤ → AuthorizationEvent
event_row order user decision reason balance = record {
  provider_event_token = order.event_token;
  card_token = order.card_token;
  user_id = user;
  amount = order.amount_cents;
  decision = decision;
  reason = reason;
  available_balance_at_decision = balance;
}

-- `finish`: record the decision and answer it.
unfoldable pub finish :
    Call → Order → String → AuthorizationDecision → Option String → Option ℤ → Action Desk AsaResult
finish call order user decision reason balance s = (
  ok (to_response_result decision),
  record_event call.record_fault (event_row order (some user) decision reason balance) s,
)

-- `upsertPendingTransaction`: a failure is swallowed, and a row that is there is left as it is.
unfoldable pub upsert_pending : Call → AsaRequest → Order → Card → ℤ → Desk → Desk
upsert_pending call payload order card fee s = elim call.upsert_fault [
  | some e ↦ s
  | none ↦ if has_transaction order.event_token s.transactions then s else record s {
    transactions =
        record {
          card_id = card.id;
          user_id = card.user_id;
          provider_transaction_token = order.event_token;
          status = pending;
          amount = order.amount_cents;
          settled_amount = none;
          fee_amount = fee;
          currency = elim payload.cardholder_currency [ some c ↦ c | none ↦ "USD" ];
          settle_ledger_transaction_id = none;
          authorized_at = some call.now;
          created_at = call.now;
        }
        ∷ s.transactions;
  }
]

-- A method of the ledger, on the ledger's tables.
unfoldable pub on_books : {A : Type 0} → (Result A × Books) → Desk → Result A × Desk
on_books (r, b) s = (r, record s { books = b })

-- `classifyFailure`: a thrown error as a short cause.
unfoldable pub classify_failure : Thrown → String
unfolding lower_includes
classify_failure e =
    let message = message_of e in
    if lower_includes message "connection pool"
    then "db_pool_exhausted"
    else if lower_includes message "could not serialize" || lower_includes message "40001"
    then "serialization_conflict"
    else if lower_includes message "deadlock"
    then "deadlock"
    else if lower_includes message "timed out" || lower_includes message "timeout"
    then "db_timeout"
    else "internal_error"

-- The answer to a hold: approved, declined for lack of funds, or the error.
unfoldable pub after_hold :
    Call → AsaRequest → Order → Card → ℤ → Result Hold × Desk → Result AsaResult × Desk
after_hold call payload order card fee (ok h, s) =
    finish call order card.user_id approved none (some h.available_after)
      (upsert_pending call payload order card fee s)
after_hold call payload order card fee (err (insufficient_balance available requested), s) =
    finish call order card.user_id insufficient_funds (some "insufficient_balance") (some available)
      s
after_hold call payload order card fee (err e, s) = (err e, s)

-- The hold of the amount with its fee, once the rates are known.
unfoldable pub hold_with :
    Call → AsaRequest → Order → Card → TransactionRates → Action Desk AsaResult
hold_with call payload order card rates s =
    let spend_amount = usd_cents_to_usdt order.amount_cents in
    let fee = transaction_fee rates spend_amount (is_foreign payload) in
    after_hold call payload order card fee (
      on_books
        (place_hold call.weather card.user_id ("auth:" <> order.event_token) (spend_amount +ℤ fee)
          "USDT" s.books)
        s)

-- The shared balance.
unfoldable pub charge_balance : Call → AsaRequest → Order → Card → Action Desk AsaResult
charge_balance call payload order card s = elim call.rates [
  | err e ↦ (err e, s)
  | ok rates ↦ hold_with call payload order card rates s
]

-- `limit && amount > limit`: a limit of zero is none.
abbrev pub over_limit : Option ℤ → ℤ → Bool
over_limit none amount = false
over_limit (some limit) amount = if eqb_ℤ limit (pos 0) then false else ltb_ℤ limit amount

abbrev pub is_set : Option ℤ → Bool
is_set none = false
is_set (some limit) = not (eqb_ℤ limit (pos 0))

-- The daily limit, measured across our own records.
unfoldable pub check_daily : Call → AsaRequest → Order → Card → Action Desk AsaResult
check_daily call payload order card s =
    if is_set card.daily_limit
    then (do
      spent ← query call.spent_fault (λ d. spent_today call.start_of_day card.id d.transactions)
      (if over_limit card.daily_limit (spent +ℤ order.amount_cents)
          then finish call order card.user_id velocity_exceeded (some "daily_limit") none
          else charge_balance call payload order card))
        s
    else charge_balance call payload order card s

abbrev pub state_refusal : CardStatus → UserStatus → Option (AuthorizationDecision × String)
state_refusal closed u = some (card_closed, "card_closed")
state_refusal frozen u = some (card_paused, "card_frozen")
state_refusal active user_active = none
state_refusal active _ = some (card_paused, "account_not_active")

-- Card and account state, and the limit of one transaction.
unfoldable pub check_card : Call → AsaRequest → Order → Card → Action Desk AsaResult
check_card call payload order card s = elim (state_refusal card.status card.user_status) [
  | some (decision, reason) ↦ finish call order card.user_id decision (some reason) none s
  | none ↦
      if over_limit card.per_transaction_limit order.amount_cents
      then finish call order card.user_id velocity_exceeded (some "per_transaction_limit") none s
      else check_daily call payload order card s
]

-- A card that the issuer knows and the program does not is refused.
unfoldable pub resolve_card : Call → AsaRequest → Order → Option Card → Action Desk AsaResult
resolve_card call payload order (some card) s = check_card call payload order card s
resolve_card call payload order none s = (
  ok Payload.suspected_fraud,
  record_event call.record_fault (event_row order none error (some "unknown_card") none) s,
)

-- A replayed event gets its recorded decision.
unfoldable pub answer_event :
    Call → AsaRequest → Order → Option AuthorizationDecision → Action Desk AsaResult
answer_event call payload order (some decision) s = (ok (to_response_result decision), s)
answer_event call payload order none s =
    (query call.card_fault (λ d. find_card order.card_token d.cards)
        >>= resolve_card call payload order)
      s

-- The body of the outer `try`.
unfoldable pub decide_order : Call → AsaRequest → Order → Action Desk AsaResult
decide_order call payload order s =
    (query call.event_fault (λ d. find_event order.event_token d.events)
        >>= answer_event call payload order)
      s

-- Fail closed: an error is recorded with its cause, and declines.
unfoldable pub fail_closed : Call → Order → Result AsaResult × Desk → AsaResult × Desk
fail_closed call order (ok r, s) = (r, s)
fail_closed call order (err e, s) = (
  Payload.insufficient_funds,
  record_event call.record_fault (event_row order none error (some (classify_failure e)) none) s,
)

unfoldable pub decide : Call → AsaRequest → Desk → AsaResult × Desk
decide call payload s = elim (read_order payload) [
  | none ↦ (Payload.suspected_fraud, s)
  | some order ↦ fail_closed call order (decide_order call payload order s)
]
