-- ===== src/Fees/Tests.antt =====
-- Runs of apps/api/src/ledger/fees.service.ts.
use tenzopay.Base.{pos, ◌+ℤ◌, ◌*ℤ◌, ◌≤ℤ◌, ◌<ℤ◌, true, ◌≡◌, arith}
use tenzopay.Effects.{err, ledger_imbalance, amount_not_positive}
use tenzopay.Ledger.Movements.{credit_deposit_body}
use tenzopay.Ledger.Samples.{empty_books}
use tenzopay.Fees.Rates.{DepositRates, TransactionRates, apply_bps, deposit_fee, transaction_fee}
use tenzopay.Fees.Bounds.{
  apply_bps_bounds, deposit_fee_bounds, deposit_fee_limits, transaction_fee_mono,
}
use tenzopay.Fees.Floor.{credit_deposit_body_floored}

abbrev rates : DepositRates
rates = record { bps = pos 100; flat = pos 0; min = pos 500000; max = pos 5000000 }

abbrev floor_only : DepositRates
floor_only = record { bps = pos 0; flat = pos 0; min = pos 500000; max = pos 0 }

abbrev card_rates : TransactionRates
card_rates = record { bps = pos 50; flat = pos 10000; fx_bps = pos 200 }

apply_bps_bounds_run :
    (pos 10000 *ℤ apply_bps (pos 199) (pos 100) ≤ℤ pos 199 *ℤ pos 100)
    × (pos 199 *ℤ pos 100 <ℤ pos 10000 *ℤ (apply_bps (pos 199) (pos 100) +ℤ pos 1))
apply_bps_bounds_run = apply_bps_bounds (pos 199) (pos 100) (omega arith) (omega arith)

deposit_fee_bounds_example :
    (pos 0 ≤ℤ deposit_fee rates (pos 1000000)) × (deposit_fee rates (pos 1000000) ≤ℤ pos 1000000)
deposit_fee_bounds_example = deposit_fee_bounds rates (pos 1000000) (omega arith)

deposit_fee_limits_run :
    (pos 500000 ≤ℤ deposit_fee rates (pos 1000000))
    × (deposit_fee rates (pos 1000000) ≤ℤ pos 5000000)
deposit_fee_limits_run =
    deposit_fee_limits rates (pos 1000000) (omega arith) (omega arith) (omega arith) (omega arith)

transaction_fee_mono_run :
    transaction_fee card_rates (pos 1000000) true ≤ℤ transaction_fee card_rates (pos 2000000) true
transaction_fee_mono_run =
    transaction_fee_mono card_rates (pos 1000000) (pos 2000000) true (omega arith)

credit_deposit_body_floored_example :
    (credit_deposit_body "u1" "d1"
      (pos 300000)
      (deposit_fee floor_only (pos 300000))
      "USDT"
      empty_books).0
    ≡ err (ledger_imbalance amount_not_positive)
credit_deposit_body_floored_example =
    credit_deposit_body_floored floor_only "u1" "d1" (pos 300000) "USDT" empty_books (omega arith)
      (omega arith) (omega arith)
