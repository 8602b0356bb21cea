-- ===== src/Money/Tests.antt =====
-- Runs of packages/shared/src/money.ts.
use tenzopay.Base.{ℕ, pos, div_ℤ, ◌+ℤ◌, ◌≤ℤ◌, ◌<ℤ◌, ◌≡◌, refl}
use tenzopay.Effects.{ok}
use tenzopay.Money.Units.{
  decimals_for, rescale, from_token_raw_value, usdt_to_usd_cents, usd_cents_to_usdt,
}
use tenzopay.Money.Conversions.{
  IsWorth, from_token_raw_value-IsWorth, usdt_to_usd_cents-usd_cents_to_usdt,
  usd_cents_to_usdt-usdt_to_usd_cents,
}

usdt_known : decimals_for "usdt" ≡ ok 6
unfolding decimals_for
usdt_known = refl

eighteen_decimals : rescale (pos 1500000000000000000) 18 6 ≡ pos 1500000
unfolding rescale div_ℤ
eighteen_decimals = refl

from_token_raw_value-IsWorth_example :
    (v : ℕ) × (from_token_raw_value (pos 1500000000000000000) 18 "usdt" ≡ ok (pos v))
    × IsWorth v 1500000000000000000 18 6
from_token_raw_value-IsWorth_example =
    from_token_raw_value-IsWorth 1500000000000000000 18 6 "usdt" usdt_known

usdt_to_usd_cents-usd_cents_to_usdt_run :
    usdt_to_usd_cents (usd_cents_to_usdt (pos 1234)) ≡ pos 1234
usdt_to_usd_cents-usd_cents_to_usdt_run = usdt_to_usd_cents-usd_cents_to_usdt (pos 1234)

usd_cents_to_usdt-usdt_to_usd_cents_run :
    (usd_cents_to_usdt (usdt_to_usd_cents (pos 12345678)) ≤ℤ pos 12345678)
    × (pos 12345678 <ℤ usd_cents_to_usdt (usdt_to_usd_cents (pos 12345678)) +ℤ pos 10000)
usd_cents_to_usdt-usdt_to_usd_cents_run = usd_cents_to_usdt-usdt_to_usd_cents 12345678
