-- ===== src/Cards/Create.antt =====
-- `cardLimitFor`, `create`, `attachVelocityRule`, `mapRuleState` and `notify` of
-- apps/api/src/cards/cards.service.ts. The hash of the input is a parameter: it is cut from Node's base64
-- encoding of the name and the limits. The number in the message at the ceiling is left out.
use tenzopay.Base.{
  ℕ, suc, ◌*◌, ◌==◌, ℤ, pos, ltb_ℤ, leb_ℤ, String, str_eq, ◌<>◌, Option, none, some, Bool, true,
  false, not, ◌&&◌, ◌||◌, if◌then◌else◌, List, [], ◌∷◌,
}
use tenzopay.Effects.{
  Thrown, insufficient_balance, app_error, Result, ok, err, Action, pure, throw, try_catch, ◌>>=◌,
  ◌>>◌,
}
use tenzopay.Queries.{read, write_quietly, with_result}
use tenzopay.Ledger.Books
use tenzopay.Ledger.Books.{unique_violation}
use tenzopay.Ledger.Methods.{charge_fee}
use tenzopay.Asa.State.{CardStatus, active, frozen, closed}
use tenzopay.Settings.Service.{get}
use tenzopay.Billing.State.{starter, team, business, User, find_user}
use tenzopay.Cards.State.{
  Card, CardRule, CardRuleState, draft, shadowing, rule_active, inactive, Period, day, month,
  AccountHolder, CardNews, card_created, Deck, find_holder, find_plan, read_limit, count_cards,
  read_fee, upsert_card, create_rule, notify, ProviderCard, ProviderRule, Run, card_error,
  find_card, find_token, on_books, on_office, is_set, or_else, duration_of,
}

-- `CreateCardInput`; limits are whole dollars.
pub record CreateCardInput : Type 0 where
  pub name : String
  pub per_transaction_usd : Option ℕ
  pub daily_usd : Option ℕ
  pub monthly_usd : Option ℕ

-- Dollars in, cents out; zero counts as none.
abbrev pub to_cents : Option ℕ → Option ℤ
to_cents none = none
to_cents (some usd) = if usd == 0 then none else some (pos (usd * 100))

unfoldable pub is_accepted : String → List AccountHolder → Bool
is_accepted user [] = false
is_accepted user (h ∷ rest) = if str_eq h.user_id user then h.is_accepted else is_accepted user rest

abbrev pub plan_key : Option User → String
plan_key none = "limits.cards.starter"
plan_key (some u) = elim u.plan [
  | team ↦ "limits.cards.team"
  | business ↦ "limits.cards.business"
  | starter ↦ "limits.cards.starter"
]

-- Open-card ceiling for the account's plan.
unfoldable pub card_limit_for : Run → String → Action Deck ℤ
card_limit_for run user =
    read (run.fault find_plan) (λ s. plan_key (find_user user s.users)) >>= λ key s.
    on_office (get (run.fault read_limit) key s.office) s

abbrev pub is_closed : CardStatus → Bool
is_closed closed = true
is_closed active = false
is_closed frozen = false

-- `card.count({ where: { userId, status: { not: CLOSED } } })`
unfoldable pub open_count : String → List Card → ℕ
open_count user [] = 0
open_count user (c ∷ rest) =
    let more = open_count user rest in
    if str_eq c.user_id user && not (is_closed c.status) then suc more else more

abbrev pub idempotency_key : String → String → String
idempotency_key user hash = "card:" <> user <> ":" <> hash

-- The `catch` around the fee.
abbrev pub uncovered : Thrown → Action Deck ℕ
uncovered (insufficient_balance a r) =
    throw (card_error "Your balance does not cover the card issuance fee. Add money and try again.")
uncovered e = throw e

unfoldable pub take_issuance : Run → String → String → ℤ → Action Deck ℕ
take_issuance run user key fee s =
    on_books
      (charge_fee run.weather user ("fee:issuance:" <> key) fee Books.card_issuance "USDT" s.books)
      s

unfoldable pub charge_issuance : Run → String → String → ℤ → Action Deck (Unit {0})
unfolding try_catch
charge_issuance run user key fee =
    if leb_ℤ fee (pos 0)
    then pure tt
    else try_catch (take_issuance run user key fee) uncovered >> pure tt

unfoldable pub map_rule_state : String → CardRuleState
map_rule_state state =
    if str_eq state "ACTIVE"
    then rule_active
    else if str_eq state "SHADOWING"
    then shadowing
    else if str_eq state "DRAFT"
    then draft
    else inactive

abbrev pub has_rule : String → List CardRule → Bool
has_rule token [] = false
has_rule token (r ∷ rest) = str_eq r.provider_rule_token token || has_rule token rest

-- `providerRuleToken` is unique, and a failure is swallowed.
abbrev pub with_rule : CardRule → Deck → Deck
with_rule row s = record s {
  rules = if has_rule row.provider_rule_token s.rules then s.rules else row ∷ s.rules;
}

abbrev pub keep_rule : Run → String → ℤ → Period → Result ProviderRule → Action Deck (Unit {0})
keep_rule run card_id limit period (err e) = pure tt
keep_rule run card_id limit period (ok promoted) = write_quietly (run.fault create_rule) (
    with_rule (record {
      card_id = card_id;
      provider_rule_token = promoted.rule_token;
      state = map_rule_state promoted.state;
      period = period;
      limit_amount = limit;
    }))

abbrev pub promote : Run → String → ℤ → Period → Result ProviderRule → Action Deck (Unit {0})
promote run card_id limit period (err e) = pure tt
promote run card_id limit period (ok created) =
    keep_rule run card_id limit period (run.promote_rule created.rule_token)

-- Create a rule and promote it; any failure is swallowed.
unfoldable pub attach_velocity_rule :
    Run → String → String → Option ℤ → Period → Action Deck (Unit {0})
attach_velocity_rule run card_id token none period = pure tt
attach_velocity_rule run card_id token (some limit) period =
    promote run card_id limit period (run.create_velocity_rule token period limit)

-- `if (daily) await attachVelocityRule(…)`
abbrev pub if_set : Option ℤ → Option ℤ
if_set limit = if is_set limit then limit else none

unfoldable pub tell : Run → String → CardNews → String → Action Deck (Unit {0})
tell run user type card =
    write_quietly (run.fault notify) (λ s. record s {
      notices = record { user_id = user; type = type; card_id = card } ∷ s.notices;
    })

abbrev pub new_card : Run → String → CreateCardInput → ProviderCard → Card
new_card run user input issued = record {
  id = run.new_id;
  user_id = user;
  name = input.name;
  provider_card_token = issued.card_token;
  status = active;
  spend_limit = issued.spend_limit;
  spend_limit_duration = duration_of (to_cents input.monthly_usd);
  daily = to_cents input.daily_usd;
  monthly = to_cents input.monthly_usd;
  per_transaction = to_cents input.per_transaction_usd;
  closed_at = none;
}

-- `card.upsert({ where: { providerCardToken }, create, update: {} })`; `id` is unique too.
abbrev pub insert_row : Card → Option Card → Action Deck Card
insert_row row (some taken) s = (err unique_violation, s)
insert_row row none s = (ok row, record s { cards = row ∷ s.cards })

unfoldable pub upsert_row : Card → Option Card → Action Deck Card
upsert_row row (some old) s = (ok old, s)
upsert_row row none s = insert_row row (find_card row.id s.cards) s

unfoldable pub upsert : Option Thrown → Card → Action Deck Card
upsert fault row = read fault (λ s. find_token row.provider_card_token s.cards) >>= upsert_row row

-- What follows the issuer's answer.
unfoldable pub keep_card : Run → String → CreateCardInput → ProviderCard → Action Deck Card
keep_card run user input issued =
    upsert (run.fault upsert_card) (new_card run user input issued) >>= λ card.
    attach_velocity_rule run card.id issued.card_token (if_set (to_cents input.daily_usd)) day
    >> attach_velocity_rule run card.id issued.card_token (if_set (to_cents input.monthly_usd))
        month
    >> tell run user card_created card.id
    >> pure card

-- From the fee on.
unfoldable pub issue : Run → String → String → CreateCardInput → Action Deck Card
issue run user hash input =
    let key = idempotency_key user hash in
    (λ (s : Deck). on_office (get (run.fault read_fee) "fee.card_issuance" s.office) s) >>= λ fee.
    charge_issuance run user key fee
    >> with_result
        (run.create_virtual_card key
          (or_else (to_cents input.monthly_usd) (to_cents input.daily_usd)))
        (keep_card run user input)

unfoldable pub create_under : Run → String → String → CreateCardInput → ℤ → Action Deck Card
create_under run user hash input max_cards =
    read (run.fault count_cards) (λ s. open_count user s.cards) >>= λ open_cards.
    if ltb_ℤ (pos 0) max_cards && leb_ℤ max_cards (pos open_cards)
    then throw (card_error "Your plan allows no more open cards.")
    else issue run user hash input

-- Create a card; `hash` is the hash of the input.
unfoldable pub create : Run → String → String → CreateCardInput → Action Deck Card
create run user hash input =
    read (run.fault find_holder) (λ s. is_accepted user s.holders) >>= λ accepted.
    if not accepted
    then throw (app_error "FORBIDDEN" "Complete identity verification before creating a card.")
    else card_limit_for run user >>= create_under run user hash input
