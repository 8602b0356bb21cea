-- ===== src/Cards/Tests.antt =====
-- Runs of the methods of apps/api/src/cards/cards.service.ts.
use tenzopay.Base.{pos, str_eq, none, some, true, [], ◌∷◌, All, ◌≡◌, refl}
use tenzopay.Effects.{ok}
use tenzopay.Ledger.Samples.{funded, stormy}
use tenzopay.Asa.State.{active, frozen, closed, user_active}
use tenzopay.Billing.State.{starter, User, find_user}
use tenzopay.Settings.Registry.{registry}
use tenzopay.Settings.Service.{get, get_defined, find_definition, find_value, parsed}
use tenzopay.Texts.{big_int, trim, trim_end, trim_start, is_space, read_digits}
use tenzopay.Queries.{read, write, write_quietly}
use tenzopay.Cards.State.{
  monthly_limit, Card, Deck, Run, find_card, find_owned, find_token, update_card,
}
use tenzopay.Cards.Create.{
  CreateCardInput, create, is_accepted, card_limit_for, create_under, open_count, issue,
  charge_issuance, take_issuance, keep_card, upsert, upsert_row, attach_velocity_rule,
  map_rule_state, tell,
}
use tenzopay.Cards.Control.{
  freeze, set_status, set_found_status, apply_status, UpdateCardLimitsInput, unchanged, dollars,
  update_card_limits,
}
use tenzopay.Cards.Kept.{Kept, IsLimited}
use tenzopay.Cards.Owned.{Limits, update_card_limits-Limits}
use tenzopay.Cards.Reach.{changed, created, start, next, Course, Course-Kept}

abbrev old_card : Card
old_card = record {
  id = "c1";
  user_id = "u1";
  name = "Old";
  provider_card_token = "t1";
  status = closed;
  spend_limit = some (pos 5000);
  spend_limit_duration = monthly_limit;
  daily = some (pos 1000);
  monthly = some (pos 5000);
  per_transaction = none;
  closed_at = some 7;
}

abbrev card : Card
card = record old_card {
  id = "c2";
  name = "Ads";
  provider_card_token = "t2";
  status = active;
  closed_at = none;
}

abbrev user : User
user = record { id = "u1"; plan = starter; status = user_active; plan_dunning_since = none }

abbrev deck : Deck
deck = record {
  books = funded;
  office = record { settings = []; admin_actions = []; audit_logs = [] };
  users = user ∷ [];
  holders = record { user_id = "u1"; is_accepted = true } ∷ [];
  cards = old_card ∷ card ∷ [];
  rules = [];
  notices = [];
}

abbrev run : Run
run = record {
  weather = record { around = λ n. record { others = λ b. b; fault = none }; later = λ b. b };
  fault = λ q. none;
  now = 900;
  new_id = "c3";
  create_virtual_card = λ key limit. ok (record { card_token = "t3"; spend_limit = limit });
  set_card_state = λ token status. ok tt;
  update_card_limit = λ token limit. ok tt;
  create_velocity_rule = λ token period limit. ok (record { rule_token = "r1"; state = "DRAFT" });
  promote_rule = λ token. ok (record { rule_token = token; state = "ACTIVE" });
  create_reveal_session = λ token. ok "https://";
}

abbrev input : CreateCardInput
input = record {
  name = "Travel";
  per_transaction_usd = none;
  daily_usd = some 20;
  monthly_usd = some 100;
}

abbrev lower : UpdateCardLimitsInput
lower = record { per_transaction = unchanged; daily = dollars 5; monthly = unchanged }

update_card_limits-Limits_run :
    Limits run "u1" "c2" deck lower (update_card_limits run "u1" "c2" lower deck)
update_card_limits-Limits_run = update_card_limits-Limits run "u1" "c2" deck lower

abbrev stormy_run : Run
stormy_run = record run { weather = stormy }

-- A card is made, and another one frozen.
abbrev busy : Deck
busy = (set_status run "u1" "c2" freeze (create run "u1" "h" input deck).1).1

busy-Course : Course deck busy
busy-Course =
    next busy (next (create run "u1" "h" input deck).1 start (created run "u1" "h" input refl refl))
      (changed run "u1" "c2" freeze refl)

old-IsLimited : All IsLimited deck.cards
old-IsLimited = (refl, (refl, tt))

Course-Kept_example :
    (d : Card) × (find_card "c1" busy.cards ≡ some d) × Kept old_card d × All IsLimited busy.cards
unfolding find_card str_eq
Course-Kept_example = Course-Kept deck busy "c1" old_card busy-Course refl old-IsLimited

set_status_run :
    (set_status run "u1" "c2" freeze deck).1.cards ≡ old_card ∷ record card { status = frozen } ∷ []
unfolding str_eq set_status read set_found_status find_owned find_card apply_status write tell
    write_quietly update_card
set_status_run = refl

create_run : open_count "u1" (create run "u1" "h" input deck).1.cards ≡ 2
unfolding str_eq create read is_accepted card_limit_for find_user get get_defined find_definition
    registry find_value parsed create_under open_count issue charge_issuance take_issuance keep_card
    upsert find_token upsert_row find_card attach_velocity_rule map_rule_state tell write_quietly
    big_int trim trim_end trim_start is_space read_digits
create_run = refl
