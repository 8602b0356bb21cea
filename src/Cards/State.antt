-- ===== src/Cards/State.antt =====
-- The tables of the cards (apps/api/prisma/schema.prisma), the issuer, and what a method of
-- apps/api/src/cards/cards.service.ts meets. Amounts of cards are USD cents. New rows stand at the front;
-- what is printed on a card, and nothing decides on, is left out.
use tenzopay.Base.{
  ℕ, ℤ, pos, ltb_ℤ, String, str_eq, Option, none, some, Bool, true, false, if◌then◌else◌, List, [],
  ◌∷◌,
}
use tenzopay.Effects.{Thrown, app_error, Result}
use tenzopay.Ledger.Books.{Books}
use tenzopay.Ledger.Methods.{Weather}
use tenzopay.Asa.State.{CardStatus}
use tenzopay.Settings.Registry.{Office}
use tenzopay.Billing.State.{User}

pub data SpendLimitDuration : Type 0 where
  transaction_limit daily_limit monthly_limit annual_limit no_period : SpendLimitDuration

pub record Card : Type 0 where
  pub id : String
  pub user_id : String
  pub name : String
  pub provider_card_token : String
  pub status : CardStatus
  pub spend_limit : Option ℤ
  pub spend_limit_duration : SpendLimitDuration
  pub daily : Option ℤ
  pub monthly : Option ℤ
  pub per_transaction : Option ℤ
  pub closed_at : Option ℕ

pub data CardRuleState : Type 0 where
  draft shadowing rule_active inactive : CardRuleState

pub data Period : Type 0 where
  day month : Period

pub record CardRule : Type 0 where
  pub card_id : String
  pub provider_rule_token : String
  pub state : CardRuleState
  pub period : Period
  pub limit_amount : ℤ

-- The holder of an account at the issuer, and whether the identity check has ACCEPTED it.
pub record AccountHolder : Type 0 where
  pub user_id : String
  pub is_accepted : Bool

pub data CardNews : Type 0 where
  card_created card_frozen : CardNews

pub record CardNotice : Type 0 where
  pub user_id : String
  pub type : CardNews
  pub card_id : String

-- The ledger, the settings, the users, and the tables of the cards.
pub record Deck : Type 0 where
  pub books : Books
  pub office : Office
  pub users : List User
  pub holders : List AccountHolder
  pub cards : List Card
  pub rules : List CardRule
  pub notices : List CardNotice

-- The queries outside the ledger.
pub data Query : Type 0 where
  find_holder find_plan read_limit count_cards read_fee upsert_card create_rule notify : Query
  find_card_row update_status delete_rules update_limits : Query

-- `ProviderCard`, as far as it is kept.
pub record ProviderCard : Type 0 where
  pub card_token : String
  pub spend_limit : Option ℤ

-- `ProviderRule`; its state is the issuer's text.
pub record ProviderRule : Type 0 where
  pub rule_token : String
  pub state : String

-- What one run meets: the weather of the ledger, the queries that fail, the clock, the id of a new row,
-- and the issuer's answers.
pub record Run : Type 0 where
  pub weather : Weather
  pub fault : Query → Option Thrown
  pub now : ℕ
  pub new_id : String
  pub create_virtual_card : String → Option ℤ → Result ProviderCard
  pub set_card_state : String → CardStatus → Result (Unit {0})
  pub update_card_limit : String → Option ℤ → Result (Unit {0})
  pub create_velocity_rule : String → Period → ℤ → Result ProviderRule
  pub promote_rule : String → Result ProviderRule
  pub create_reveal_session : String → Result String

abbrev pub card_error : String → Thrown
card_error message = app_error "CARD_OPERATION_FAILED" message

-- `card.findUnique({ where: { id } })`
unfoldable pub find_card : String → List Card → Option Card
find_card id [] = none
find_card id (c ∷ rest) = if str_eq c.id id then some c else find_card id rest

abbrev pub if_owned : String → Option Card → Option Card
if_owned user none = none
if_owned user (some c) = if str_eq c.user_id user then some c else none

-- `card.findFirst({ where: { id, userId } })`; `id` is the primary key.
unfoldable pub find_owned : String → String → List Card → Option Card
find_owned user id cards = if_owned user (find_card id cards)

-- `card.findUnique({ where: { providerCardToken } })`
unfoldable pub find_token : String → List Card → Option Card
find_token token [] = none
find_token token (c ∷ rest) =
    if str_eq c.provider_card_token token then some c else find_token token rest

-- `card.update({ where: { id } })`
unfoldable pub update_card : String → (Card → Card) → List Card → List Card
update_card id f [] = []
update_card id f (c ∷ rest) =
    let more = update_card id f rest in if str_eq c.id id then f c ∷ rest else c ∷ more

abbrev pub with_cards : (List Card → List Card) → Deck → Deck
with_cards f s = record s { cards = f s.cards }

abbrev pub on_books : {A : Type 0} → Result A × Books → Deck → Result A × Deck
on_books (r, b) s = (r, record s { books = b })

abbrev pub on_office : {A : Type 0} → Result A × Office → Deck → Result A × Deck
on_office (r, o) s = (r, record s { office = o })

-- `limit && …`: a limit of zero counts as none.
abbrev pub is_set : Option ℤ → Bool
is_set none = false
is_set (some x) = if ltb_ℤ x (pos 0) then true else ltb_ℤ (pos 0) x

abbrev pub or_else : Option ℤ → Option ℤ → Option ℤ
or_else (some x) other_limit = some x
or_else none other_limit = other_limit

abbrev pub duration_of : Option ℤ → SpendLimitDuration
duration_of monthly = if is_set monthly then monthly_limit else daily_limit
