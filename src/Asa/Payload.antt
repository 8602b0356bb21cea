-- ===== src/Asa/Payload.antt =====
-- The request and the answer of an authorization (apps/api/src/webhooks/asa.service.ts), and the
-- reading of the request.
use tenzopay.Base.{
  ℕ, ◌*◌, ◌+◌, ◌/◌, ◌^◌, ℤ, pos, pos_part, neg_part, ltb_ℤ, String, str_eq, same_upper, Option,
  none, some, Bool, false, not, if◌then◌else◌,
}
use tenzopay.Asa.State.{AuthorizationDecision}
use tenzopay.Asa.State

-- A number of a JSON payload: a double is `numerator / 2 ^ scale`.
pub data Number : Type 0 where
  finite : (numerator : ℤ) (scale : ℕ) → Number
  not_finite : Number

pub record AsaRequest : Type 0 where
  pub token : Option String
  pub card_token : Option String
  pub amount : Option Number
  pub hold_amount : Option Number
  pub cardholder_amount : Option Number
  pub cardholder_currency : Option String
  pub merchant_amount : Option Number
  pub merchant_currency : Option String

pub data AsaResult : Type 0 where
  approved insufficient_funds velocity_exceeded card_paused card_closed : AsaResult
  unauthorized_merchant suspected_fraud : AsaResult

-- `a ?? b`
abbrev pub or_else : {A : Type 0} → Option A → Option A → Option A
or_else (some a) b = some a
or_else none b = b

-- `Math.round(Math.abs(x))`
abbrev round_abs : ℤ → ℕ → ℤ
round_abs x scale =
    let absolute = pos_part x + neg_part x in pos ((2 * absolute + 2 ^ scale) / (2 * 2 ^ scale))

abbrev amount_of : Option Number → Option ℤ
amount_of none = none
amount_of (some not_finite) = none
amount_of (some (finite numerator scale)) = some (round_abs numerator scale)

unfoldable pub extract_amount : AsaRequest → Option ℤ
extract_amount p =
    amount_of
      (or_else p.amount (or_else p.hold_amount (or_else p.cardholder_amount p.merchant_amount)))

-- A text that is there and not empty, as `!text` tests it.
abbrev pub present : Option String → Option String
present none = none
present (some s) = if str_eq s "" then none else some s

pub record Order : Type 0 where
  pub event_token : String
  pub card_token : String
  pub amount_cents : ℤ

abbrev order_of : Option String → Option String → Option ℤ → Option Order
order_of (some event) (some card) (some amount) =
    if ltb_ℤ amount (pos 0)
    then none
    else some (record { event_token = event; card_token = card; amount_cents = amount })
order_of _ _ _ = none

-- The fields that a decision needs, or nothing for a malformed payload.
unfoldable pub read_order : AsaRequest → Option Order
unfolding extract_amount
read_order p = order_of (present p.token) (present p.card_token) (extract_amount p)

abbrev is_foreign_currency : Option String → Bool
is_foreign_currency none = false
is_foreign_currency (some currency) = not (same_upper currency "USD")

-- `!!merchantCurrency && merchantCurrency.toUpperCase() !== 'USD'`
unfoldable pub is_foreign : AsaRequest → Bool
is_foreign p = is_foreign_currency (present p.merchant_currency)

unfoldable pub to_response_result : AuthorizationDecision → AsaResult
to_response_result State.approved = approved
to_response_result State.insufficient_funds = insufficient_funds
to_response_result State.velocity_exceeded = velocity_exceeded
to_response_result State.card_paused = card_paused
to_response_result State.card_closed = card_closed
to_response_result State.unauthorized_merchant = unauthorized_merchant
to_response_result _ = insufficient_funds
