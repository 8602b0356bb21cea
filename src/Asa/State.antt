-- ===== src/Asa/State.antt =====
-- The tables that the decision on an authorization reads and writes (apps/api/prisma/schema.prisma).
-- New rows stand at the front. Merchant data, which nothing decides on, is left out.
use tenzopay.Base.{
  ℕ, ℤ, pos, ◌+ℤ◌, leb, String, str_eq, Option, none, some, Bool, true, false, ◌&&◌, ◌||◌,
  if◌then◌else◌, List, [], ◌∷◌,
}
use tenzopay.Ledger.Books.{Books}

pub data AuthorizationDecision : Type 0 where
  approved insufficient_funds velocity_exceeded card_paused card_closed : AuthorizationDecision
  unauthorized_merchant suspected_fraud error : AuthorizationDecision

pub data CardStatus : Type 0 where
  active frozen closed : CardStatus

pub data UserStatus : Type 0 where
  user_pending_verification user_active user_frozen user_closed : UserStatus

pub data CardTransactionStatus : Type 0 where
  pending settled declined reversed expired refunded : CardTransactionStatus

-- A card with its user's status.
pub record Card : Type 0 where
  pub id : String
  pub user_id : String
  pub provider_card_token : String
  pub status : CardStatus
  pub per_transaction_limit : Option ℤ
  pub daily_limit : Option ℤ
  pub user_status : UserStatus

pub record CardTransaction : Type 0 where
  pub card_id : String
  pub user_id : String
  pub provider_transaction_token : String
  pub status : CardTransactionStatus
  pub amount : ℤ
  pub settled_amount : Option ℤ
  pub fee_amount : ℤ
  pub currency : String
  pub settle_ledger_transaction_id : Option ℕ
  pub authorized_at : Option ℕ
  pub created_at : ℕ

pub record AuthorizationEvent : Type 0 where
  pub provider_event_token : String
  pub card_token : String
  pub user_id : Option String
  pub amount : ℤ
  pub decision : AuthorizationDecision
  pub reason : Option String
  pub available_balance_at_decision : Option ℤ

pub record Desk : Type 0 where
  pub books : Books
  pub cards : List Card
  pub transactions : List CardTransaction
  pub events : List AuthorizationEvent

-- `authorizationEvent.findUnique({ where: { providerEventToken } })`
unfoldable pub find_event : String → List AuthorizationEvent → Option AuthorizationDecision
find_event token [] = none
find_event token (e ∷ rest) =
    if str_eq e.provider_event_token token then some e.decision else find_event token rest

-- `card.findUnique({ where: { providerCardToken } })`
unfoldable pub find_card : String → List Card → Option Card
find_card token [] = none
find_card token (c ∷ rest) =
    if str_eq c.provider_card_token token then some c else find_card token rest

unfoldable pub has_transaction : String → List CardTransaction → Bool
has_transaction token [] = false
has_transaction token (t ∷ rest) =
    str_eq t.provider_transaction_token token || has_transaction token rest

abbrev is_counted : CardTransactionStatus → Bool
is_counted pending = true
is_counted settled = true
is_counted _ = false

-- What a row counts for: its settled amount once it has one, or the authorized amount.
abbrev counted_amount : CardTransactionStatus → Option ℤ → ℤ → ℤ
counted_amount settled (some value) amount = value
counted_amount _ _ amount = amount

-- `spentToday`: the rows of the card since the start of the day.
unfoldable pub spent_today : ℕ → String → List CardTransaction → ℤ
spent_today start_of_day card [] = pos 0
spent_today start_of_day card (t ∷ rest) =
    let total = spent_today start_of_day card rest in
    if str_eq t.card_id card && (leb start_of_day t.created_at && is_counted t.status)
    then total +ℤ counted_amount t.status t.settled_amount t.amount
    else total
