-- ===== src/Asa/Checks.antt =====
-- What an approval of apps/api/src/webhooks/asa.service.ts has passed.
use tenzopay.Base.{some, ◌≡◌}
use tenzopay.Effects.{Result, ok}
use tenzopay.Asa.State.{
  approved, Card, AuthorizationEvent, Desk, find_card, spent_today, CardStatus, active, frozen,
  closed, UserStatus,
}
use tenzopay.Asa.State
use tenzopay.Asa.Payload.{AsaResult, Order, is_foreign}
use tenzopay.Asa.Payload
use tenzopay.Asa.Decide.{Call}
use tenzopay.Asa.Paths.{IsCleared}

-- The card of an order is known and has passed its checks.
abbrev pub HasClearedCard : Call → Order → Desk → Type 0
HasClearedCard call order s =
    (card : Card) × (find_card order.card_token s.cards ≡ some card) × IsCleared call order card s

-- An approval is only answered for such a card.
abbrev Passed : Call → Order → Desk → Result AsaResult × Desk → Type 0
Passed call order s r = r.0 ≡ ok Payload.approved → HasClearedCard call order s
