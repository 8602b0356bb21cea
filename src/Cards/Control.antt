-- ===== src/Cards/Control.antt =====
-- `setStatus`, `updateLimits` and `createRevealSession` of apps/api/src/cards/cards.service.ts. The old
-- rules are deleted at the issuer too, with failures swallowed; the issuer's own rules are not modelled.
use tenzopay.Base.{
  ℕ, ◌*◌, ℤ, pos, ltb_ℤ, String, str_eq, Option, none, some, Bool, true, false, ◌&&◌, if◌then◌else◌,
  List, [], ◌∷◌,
}
use tenzopay.Effects.{app_error, Action, pure, throw, ◌>>=◌, ◌>>◌}
use tenzopay.Queries.{read, write, with_result}
use tenzopay.Asa.State.{CardStatus, active, frozen, closed}
use tenzopay.Cards.State.{
  Card, CardRule, card_frozen, day, month, Deck, find_card_row, update_status, delete_rules,
  update_limits, Run, card_error, find_owned, update_card, with_cards, is_set, or_else, duration_of,
}
use tenzopay.Cards.Create.{is_closed, attach_velocity_rule, if_set, tell}

pub data CardAction : Type 0 where
  freeze unfreeze close : CardAction

abbrev pub target_of : CardAction → CardStatus
target_of freeze = frozen
target_of unfreeze = active
target_of close = closed

-- The refusal of an action at a status, if there is one.
abbrev pub action_refusal : CardAction → CardStatus → Option String
action_refusal action closed = some "This card is closed and cannot be changed."
action_refusal unfreeze active = some "This card is not frozen."
action_refusal freeze frozen = some "Only an active card can be frozen."
action_refusal unfreeze frozen = none
action_refusal freeze active = none
action_refusal close active = none
action_refusal close frozen = none

abbrev pub with_status : ℕ → CardStatus → Card → Card
with_status now status c = record c {
  status = status;
  closed_at = if is_closed status then some now else none;
}

abbrev pub is_frozen : CardStatus → Bool
is_frozen frozen = true
is_frozen active = false
is_frozen closed = false

-- The issuer first, then the row.
unfoldable pub apply_status : Run → Card → CardStatus → Action Deck Card
apply_status run c target = with_result (run.set_card_state c.provider_card_token target) (λ u.
    write (run.fault update_status) (with_cards (update_card c.id (with_status run.now target)))
    >> (if is_frozen target then tell run c.user_id card_frozen c.id else pure tt)
    >> pure (with_status run.now target c))

abbrev pub if_allowed : Run → CardAction → Card → Option String → Action Deck Card
if_allowed run action c (some message) = throw (card_error message)
if_allowed run action c none = apply_status run c (target_of action)

unfoldable pub set_found_status : Run → CardAction → Option Card → Action Deck Card
set_found_status run action none = throw (app_error "NOT_FOUND" "Card not found.")
set_found_status run action (some c) = if_allowed run action c (action_refusal action c.status)

unfoldable pub set_status : Run → String → String → CardAction → Action Deck Card
set_status run user card_id action =
    read (run.fault find_card_row) (λ s. find_owned user card_id s.cards)
    >>= set_found_status run action

-- A field of `UpdateCardLimitsInput`: absent, `null`, or whole dollars.
pub data LimitInput : Type 0 where
  unchanged removed : LimitInput
  dollars : ℕ → LimitInput

abbrev pub next_limit : LimitInput → Option ℤ → Option ℤ
next_limit unchanged old = old
next_limit removed old = none
next_limit (dollars usd) old = some (pos (usd * 100))

pub record UpdateCardLimitsInput : Type 0 where
  pub per_transaction : LimitInput
  pub daily : LimitInput
  pub monthly : LimitInput

abbrev pub exceeds : Option ℤ → Option ℤ → Bool
exceeds (some d) (some m) = is_set (some d) && (is_set (some m) && ltb_ℤ m d)
exceeds none m = false
exceeds (some d) none = false

-- `cardRule.deleteMany({ where: { cardId } })`
unfoldable pub drop_rules : String → List CardRule → List CardRule
drop_rules card_id [] = []
drop_rules card_id (r ∷ rest) =
    let more = drop_rules card_id rest in if str_eq r.card_id card_id then more else r ∷ more

abbrev pub with_limits : Option ℤ → Option ℤ → Option ℤ → Card → Card
with_limits daily monthly per_transaction c = record c {
  daily = daily;
  monthly = monthly;
  per_transaction = per_transaction;
  spend_limit = or_else monthly daily;
  spend_limit_duration = duration_of monthly;
}

-- Behind the issuer's new limit: the rules are replaced, then the row is written.
unfoldable pub replace_limits : Run → Card → Option ℤ → Option ℤ → Option ℤ → Action Deck Card
replace_limits run c daily monthly per_transaction =
    write (run.fault delete_rules) (λ s. record s { rules = drop_rules c.id s.rules })
    >> attach_velocity_rule run c.id c.provider_card_token (if_set daily) day
    >> attach_velocity_rule run c.id c.provider_card_token (if_set monthly) month
    >> write (run.fault update_limits)
        (with_cards (update_card c.id (with_limits daily monthly per_transaction)))
    >> pure (with_limits daily monthly per_transaction c)

unfoldable pub update_open : Run → UpdateCardLimitsInput → Card → Action Deck Card
update_open run input c =
    let daily = next_limit input.daily c.daily in
    let monthly = next_limit input.monthly c.monthly in
    if exceeds daily monthly
    then throw (card_error "The daily limit cannot exceed the monthly limit.")
    else with_result (run.update_card_limit c.provider_card_token (or_else monthly daily)) (λ u.
      replace_limits run c daily monthly (next_limit input.per_transaction c.per_transaction))

unfoldable pub update_found : Run → UpdateCardLimitsInput → Option Card → Action Deck Card
update_found run input none = throw (app_error "NOT_FOUND" "Card not found.")
update_found run input (some c) =
    if is_closed c.status
    then throw (card_error "This card is closed and cannot be changed.")
    else update_open run input c

unfoldable pub update_card_limits : Run → String → String → UpdateCardLimitsInput → Action Deck Card
update_card_limits run user card_id input =
    read (run.fault find_card_row) (λ s. find_owned user card_id s.cards) >>= update_found run input

abbrev pub reveal_found : Run → Option Card → Action Deck String
reveal_found run none = throw (app_error "NOT_FOUND" "Card not found.")
reveal_found run (some c) =
    if is_closed c.status
    then throw (card_error "Card details are not available for a closed card.")
    else with_result (run.create_reveal_session c.provider_card_token) (λ url. pure url)

unfoldable pub create_reveal_session : Run → String → String → Action Deck String
create_reveal_session run user card_id =
    read (run.fault find_card_row) (λ s. find_owned user card_id s.cards) >>= reveal_found run
