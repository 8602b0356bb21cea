-- ===== src/Webhooks/Lithic.antt =====
-- `getTransaction` and `mapTransaction` of apps/api/src/providers/lithic/lithic-card.provider.ts. The
-- answer of the HTTP client is an argument.
use tenzopay.Base.{ℤ, String, same_upper, Option, none, some, ◌||◌, if◌then◌else◌}
use tenzopay.Effects.{Result, ok, err}
use tenzopay.Asa.State.{CardTransactionStatus, pending, settled, declined, reversed, expired}
use tenzopay.Asa.Payload.{Number, or_else}
use tenzopay.Webhooks.Rows.{whole_abs}

-- `LithicTransactionResponse`, as far as it is read.
pub record LithicTransactionResponse : Type 0 where
  pub token : String
  pub card_token : String
  pub status : String
  pub hold_amount : Option Number
  pub cardholder_amount : Option Number
  pub cardholder_currency : Option String
  pub settlement_amount : Option Number

pub record ProviderTransaction : Type 0 where
  pub transaction_token : String
  pub card_token : String
  pub status : CardTransactionStatus
  pub amount : ℤ
  pub settled_amount : Option ℤ
  pub currency : String

abbrev pub provider_status : String → CardTransactionStatus
provider_status status =
    if same_upper status "SETTLED"
    then settled
    else if same_upper status "DECLINED"
    then declined
    else if same_upper status "REVERSED" || same_upper status "VOIDED"
    then reversed
    else if same_upper status "EXPIRED"
    then expired
    else pending

abbrev some_whole : Result ℤ → Result (Option ℤ)
some_whole (ok n) = ok (some n)
some_whole (err e) = err e

-- A settlement that is there has to be whole.
abbrev settled_of : Option Number → Result (Option ℤ)
settled_of none = ok none
settled_of (some x) = some_whole (whole_abs (some x))

abbrev transaction_of :
    LithicTransactionResponse → Result ℤ → Result (Option ℤ) → Result ProviderTransaction
transaction_of t (err e) settlement = err e
transaction_of t (ok hold) (err e) = err e
transaction_of t (ok hold) (ok settlement) = ok (record {
  transaction_token = t.token;
  card_token = t.card_token;
  status = provider_status t.status;
  amount = hold;
  settled_amount = settlement;
  currency = elim t.cardholder_currency [ some c ↦ c | none ↦ "USD" ];
})

-- It throws where an amount is not whole.
unfoldable pub map_transaction : LithicTransactionResponse → Result ProviderTransaction
map_transaction t =
    transaction_of t (whole_abs (or_else t.hold_amount t.cardholder_amount))
      (settled_of t.settlement_amount)

abbrev pub or_null : Result ProviderTransaction → Option ProviderTransaction
or_null (ok p) = some p
or_null (err e) = none

-- Any failure is caught, and `null` is returned.
unfoldable pub get_transaction :
    Result LithicTransactionResponse → Result (Option ProviderTransaction)
get_transaction (err e) = ok none
get_transaction (ok response) = ok (or_null (map_transaction response))
