-- ===== src/Asa/Paths.antt =====
-- Every way through `decide` for a resolved card (apps/api/src/webhooks/asa.service.ts): what holds
-- of a decline, of an error, and of a hold behind passed checks, holds of the whole.
use tenzopay.Base.{
  ℤ, ◌+ℤ◌, String, Option, none, some, Bool, true, false, Bool-cases, inl, inr, ◌≡◌, refl, arith,
}
use tenzopay.Effects.{Thrown, Result, ok, err, Result-cases, Action, ◌>>=◌}
use tenzopay.Fees.Rates.{TransactionRates}
use tenzopay.Asa.State.{
  AuthorizationDecision, approved, insufficient_funds, velocity_exceeded, error, Card,
  AuthorizationEvent, Desk, find_event, find_card, spent_today, card_paused, card_closed,
  CardStatus, active, frozen, closed, UserStatus,
}
use tenzopay.Asa.State
use tenzopay.Asa.Payload.{AsaRequest, AsaResult, Order}
use tenzopay.Asa.Decide.{
  Call, is_set, state_refusal, query, finish, hold_with, charge_balance, over_limit, check_daily,
  check_card,
}

-- The checks of a card that an authorization has to pass.
pub record IsCleared (call : Call) (order : Order) (card : Card) (s : Desk) : Type 0 where
  pub card_is_active : card.status ≡ active
  pub user_is_active : card.user_status ≡ State.user_active
  pub within_limit : over_limit card.per_transaction_limit order.amount_cents ≡ false
  pub within_day :
      over_limit card.daily_limit
        (spent_today call.start_of_day card.id s.transactions +ℤ order.amount_cents)
      ≡ false

abbrev pub is_decline : AuthorizationDecision → Bool
is_decline approved = false
is_decline _ = true

no_limit : (limit : Option ℤ) (amount : ℤ) → is_set limit ≡ false → over_limit limit amount ≡ false
no_limit none amount h = refl
no_limit (some limit) amount h = ground arith

module _ {A B : Type 0} (P : Result B × Desk → Type 0) (s : Desk) where
  pub query-P :
      (fault : Option Thrown) (f : Desk → A) (k : A → Action Desk B)
      → ((e : Thrown) → P (err e, s))
      → P (k (f s) s)
      → P ((query fault f >>= k) s)
  unfolding query
  query-P none f k on_error p = p
  query-P (some e) f k on_error p = on_error e

pub query_works :
    {A B : Type 0} (fault : Option Thrown) (f : Desk → A) (k : A → Action Desk B) (s : Desk)
    → fault ≡ none
    → (query fault f >>= k) s ≡ k (f s) s
unfolding query
query_works none f k s h = refl
query_works (some e) f k s h = cc

module _ (call : Call) (payload : AsaRequest) (order : Order) (card : Card) (s : Desk)
    (P : Result AsaResult × Desk → Type 0) (on_error : (e : Thrown) → P (err e, s))
    (on_decline : (d : AuthorizationDecision) (reason : Option String)
      → is_decline d ≡ true
      → P (finish call order card.user_id d reason none s))
    (on_hold : (rates : TransactionRates)
      → call.rates ≡ ok rates
      → IsCleared call order card s
      → P (hold_with call payload order card rates s)) where
  charge_balance-P : IsCleared call order card s → P (charge_balance call payload order card s)
  unfolding charge_balance
  charge_balance-P c = elim (Result-cases call.rates) [
    | inr (e, h) ↦ rw (h, charge_balance) (on_error e)
    | inl (rates, h) ↦ rw (h, charge_balance) (on_hold rates h c)
  ]

  check_daily-P :
      card.status ≡ active
      → card.user_status ≡ State.user_active
      → over_limit card.per_transaction_limit order.amount_cents ≡ false
      → P (check_daily call payload order card s)
  unfolding check_daily
  check_daily-P p q r =
      let spent = spent_today call.start_of_day card.id s.transactions in
      let total = spent +ℤ order.amount_cents in
      let cleared = λ (w : over_limit card.daily_limit total ≡ false).
        charge_balance-P
          (record { card_is_active = p; user_is_active = q; within_limit = r; within_day = w }) in
      elim (Bool-cases (is_set card.daily_limit)) [
        | inr unset ↦ rw (unset, check_daily) (cleared (no_limit card.daily_limit total unset))
        | inl set ↦
            rw (set, check_daily)
              (query-P P s call.spent_fault _ _ on_error
                (elim (Bool-cases (over_limit card.daily_limit total)) [
                  | inl over ↦ rw over (on_decline velocity_exceeded (some "daily_limit") refl)
                  | inr under ↦ rw under (cleared under)
                ]))
      ]

  refused-P :
      (c : CardStatus) (u : UserStatus) (rest : Result AsaResult × Desk)
      → (c ≡ active → u ≡ State.user_active → P rest)
      → P (elim (state_refusal c u) [
        | some (decision, reason) ↦ finish call order card.user_id decision (some reason) none s
        | none ↦ rest
      ])
  refused-P closed u rest e = on_decline card_closed (some "card_closed") refl
  refused-P frozen u rest e = on_decline card_paused (some "card_frozen") refl
  refused-P active State.user_active rest e = e refl refl
  refused-P active State.user_pending_verification rest e =
      on_decline card_paused (some "account_not_active") refl
  refused-P active State.user_frozen rest e =
      on_decline card_paused (some "account_not_active") refl
  refused-P active State.user_closed rest e =
      on_decline card_paused (some "account_not_active") refl

  pub check_card-P : P (check_card call payload order card s)
  unfolding check_card
  check_card-P = refused-P card.status card.user_status _ (λ p q.
      elim (Bool-cases (over_limit card.per_transaction_limit order.amount_cents)) [
        | inl over ↦ rw over (on_decline velocity_exceeded (some "per_transaction_limit") refl)
        | inr under ↦ rw under (check_daily-P p q under)
      ])
