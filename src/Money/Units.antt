-- ===== src/Money/Units.antt =====
-- `DECIMALS`, `decimalsFor`, `fromTokenRawValue`, `usdtToUsdCents` and `usdCentsToUsdt` of
-- packages/shared/src/money.ts. A raw value is the BigInt that the code reads it as, and the decimals
-- of a token are a natural number.
use tenzopay.Base.{
  ℕ, ◌-◌, ◌^◌, ℤ, pos, ◌*ℤ◌, div_ℤ, ltb, ◌==◌, same_upper, if◌then◌else◌, String, ◌<>◌,
}
use tenzopay.Effects.{Result, ok, err, other}

-- `DECIMALS[currency.toUpperCase()]`, or a throw.
unfoldable pub decimals_for : String → Result ℕ
unfolding same_upper
decimals_for currency =
    if same_upper currency "USDT"
    then ok 6
    else if same_upper currency "USD"
    then ok 2
    else err (other ("Unknown currency: " <> currency))

-- From the decimals of the token to those of the currency, truncated.
unfoldable pub rescale : ℤ → ℕ → ℕ → ℤ
rescale raw token_decimals target =
    if token_decimals == target
    then raw
    else if ltb target token_decimals
    then div_ℤ raw (10 ^ (token_decimals - target))
    else raw *ℤ pos (10 ^ (target - token_decimals))

unfoldable pub from_token_raw_value : ℤ → ℕ → String → Result ℤ
from_token_raw_value raw token_decimals currency = elim (decimals_for currency) [
  | err e ↦ err e
  | ok target ↦ ok (rescale raw token_decimals target)
]

unfoldable pub usdt_to_usd_cents : ℤ → ℤ
usdt_to_usd_cents usdt_minor = div_ℤ usdt_minor 10000

unfoldable pub usd_cents_to_usdt : ℤ → ℤ
usd_cents_to_usdt usd_cents = usd_cents *ℤ pos 10000
