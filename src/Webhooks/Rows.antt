-- ===== src/Webhooks/Rows.antt =====
-- The report of a card transaction and the row that it is written to (`syncCardTransaction` of
-- apps/api/src/webhooks/webhooks.service.ts). The report is the object `payload.transaction ?? payload`;
-- merchant data and the raw report, which nothing decides on, are left out.
use tenzopay.Base.{
  ℕ, ◌+◌, ◌/◌, ◌%◌, ◌^◌, ℤ, pos, pos_part, neg_part, ◌+ℤ◌, ◌*ℤ◌, ltb_ℤ, ◌==◌, String, str_eq,
  same_upper, Option, none, some, Bool, true, false, ◌||◌, if◌then◌else◌, List, [], ◌∷◌,
}
use tenzopay.Effects.{Thrown, other, Result, ok, err}
use tenzopay.Ledger.Methods.{Weather}
use tenzopay.Asa.State.{
  CardTransactionStatus, pending, settled, declined, reversed, expired, refunded, Card,
  CardTransaction, Desk,
}
use tenzopay.Asa.Payload.{Number, finite, not_finite, or_else}

-- A reported card transaction.
pub record Report : Type 0 where
  pub token : Option String
  pub card_token : Option String
  pub status : String
  pub hold_amount : Option Number
  pub cardholder_amount : Option Number
  pub cardholder_currency : Option String
  pub settlement_amount : Option Number

-- The queries of the method outside the ledger.
pub data Query : Type 0 where
  find_the_card find_the_row upsert_the_row update_the_row find_the_hold : Query

-- What one run meets: the weather of the ledger, the error with which a query fails, if it does, and
-- the clock.
pub record Run : Type 0 where
  pub weather : Weather
  pub fault : Query → Option Thrown
  pub now : ℕ

unfoldable pub map_transaction_status : String → CardTransactionStatus
map_transaction_status status =
    if same_upper status "SETTLED"
    then settled
    else if same_upper status "DECLINED"
    then declined
    else if same_upper status "VOIDED" || same_upper status "REVERSED"
    then reversed
    else if same_upper status "EXPIRED"
    then expired
    else pending

abbrev status_rank : CardTransactionStatus → ℕ
status_rank pending = 0
status_rank settled = 1
status_rank declined = 2
status_rank reversed = 3
status_rank expired = 4
status_rank refunded = 5

unfoldable pub status_eq : CardTransactionStatus → CardTransactionStatus → Bool
status_eq a b = status_rank a == status_rank b

-- `BigInt(Math.abs(x ?? 0))`, which throws for a number that is not whole.
abbrev pub whole_abs : Option Number → Result ℤ
whole_abs none = ok (pos 0)
whole_abs (some not_finite) = err (other "The number cannot be converted to a BigInt")
whole_abs (some (finite x scale)) =
    let absolute = pos_part x + neg_part x in
    if absolute % (2 ^ scale) == 0
    then ok (pos (absolute / (2 ^ scale)))
    else err (other "The number cannot be converted to a BigInt")

-- `cardTransaction.findUnique({ where: { providerTransactionToken } })`
unfoldable pub find_row : String → List CardTransaction → Option CardTransaction
find_row token [] = none
find_row token (t ∷ rest) =
    if str_eq t.provider_transaction_token token then some t else find_row token rest

-- `cardTransaction.update` of the row with the token
unfoldable pub update_row :
    String → (CardTransaction → CardTransaction) → List CardTransaction → List CardTransaction
update_row token f [] = []
update_row token f (t ∷ rest) =
    let more = update_row token f rest in
    if str_eq t.provider_transaction_token token then f t ∷ rest else t ∷ more

-- The amounts of a report.
pub record Amounts : Type 0 where
  pub hold_cents : ℤ
  pub settlement_cents : ℤ

abbrev settled_cents : ℤ → Option ℤ
settled_cents settlement = if ltb_ℤ (pos 0) settlement then some settlement else none

-- `cardTransaction.upsert`: the reported status and settled amount, on a new row or on the old one.
unfoldable pub upsert_row :
    ℕ
    → Report
    → String
    → Card
    → Amounts
    → CardTransactionStatus
    → Option CardTransaction
    → Desk
    → Desk
upsert_row now report token card amounts mapped (some old) s = record s {
  transactions =
      update_row token
        (λ t. record t {
          status = mapped;
          settled_amount = or_else (settled_cents amounts.settlement_cents) t.settled_amount;
        })
        s.transactions;
}
upsert_row now report token card amounts mapped none s = record s {
  transactions =
      record {
        card_id = card.id;
        user_id = card.user_id;
        provider_transaction_token = token;
        status = mapped;
        amount = amounts.hold_cents;
        settled_amount = settled_cents amounts.settlement_cents;
        fee_amount = pos 0;
        currency = elim report.cardholder_currency [ some c ↦ c | none ↦ "USD" ];
        settle_ledger_transaction_id = none;
        authorized_at = some now;
        created_at = now;
      }
      ∷ s.transactions;
}

-- The fee that the hold carries, and the hold, of the row as it was.
abbrev pub fee_of : Option CardTransaction → ℤ
fee_of (some old) = old.fee_amount
fee_of none = pos 0

abbrev pub held_of_row : Option CardTransaction → Amounts → ℤ
held_of_row (some old) amounts = old.amount *ℤ pos 10000 +ℤ old.fee_amount
held_of_row none amounts = amounts.hold_cents *ℤ pos 10000 +ℤ pos 0

-- The statuses that end an authorization without a settlement.
abbrev pub releases : CardTransactionStatus → Bool
releases reversed = true
releases expired = true
releases declined = true
releases _ = false
