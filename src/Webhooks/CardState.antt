-- ===== src/Webhooks/CardState.antt =====
-- `syncCardState` of apps/api/src/webhooks/webhooks.service.ts.
use tenzopay.Base.{String, str_eq, same_upper, Option, none, some, if◌then◌else◌, List, [], ◌∷◌}
use tenzopay.Effects.{Thrown}
use tenzopay.Asa.State.{CardStatus, active, frozen, closed, Card, Desk}
use tenzopay.Asa.Payload.{present}

-- `payload.card_token ?? payload.token`, and `payload.state`.
pub record CardReport : Type 0 where
  pub card_token : Option String
  pub state : String

unfoldable pub status_of : String → Option CardStatus
status_of state =
    if same_upper state "OPEN"
    then some active
    else if same_upper state "PAUSED"
    then some frozen
    else if same_upper state "CLOSED"
    then some closed
    else none

unfoldable pub update_status : String → CardStatus → List Card → List Card
update_status token status [] = []
update_status token status (c ∷ rest) =
    let more = update_status token status rest in
    if str_eq c.provider_card_token token then record c { status = status } ∷ rest else c ∷ more

abbrev pub write_status : Option Thrown → Option String → Option CardStatus → Desk → Desk
write_status none (some token) (some status) s = record s {
  cards = update_status token status s.cards;
}
write_status none (some token) none s = s
write_status none none status s = s
write_status (some e) token status s = s

-- A failure of the update is swallowed, and an unknown card is one.
unfoldable pub sync_card_state : Option Thrown → CardReport → Desk → Desk
sync_card_state fault report =
    write_status fault (present report.card_token) (status_of report.state)
