-- ===== src/Fees/Rates.antt =====
-- The calculation and the recording of fees (apps/api/src/ledger/fees.service.ts).
use tenzopay.Base.{ℤ, pos, ◌+ℤ◌, ◌*ℤ◌, div_ℤ, ltb_ℤ, leb_ℤ, Bool, ◌&&◌, ◌||◌, if◌then◌else◌}
use tenzopay.Effects.{Action, pure}
use tenzopay.Ledger.Books.{FeeRow, Books, create_fee}

-- 'fee.deposit.bps', 'fee.deposit.flat', 'fee.deposit.min', 'fee.deposit.max'
pub record DepositRates : Type 0 where
  pub bps : ℤ
  pub flat : ℤ
  pub min : ℤ
  pub max : ℤ

-- 'fee.transaction.bps', 'fee.transaction.flat', 'fee.fx.bps'
pub record TransactionRates : Type 0 where
  pub bps : ℤ
  pub flat : ℤ
  pub fx_bps : ℤ

-- Basis points of an amount, truncated.
unfoldable pub apply_bps : ℤ → ℤ → ℤ
apply_bps amount bps =
    if leb_ℤ bps (pos 0) || leb_ℤ amount (pos 0) then pos 0 else div_ℤ (amount *ℤ bps) 10000

unfoldable pub clamp : ℤ → ℤ → ℤ → ℤ
clamp fee min max =
    let raised = if ltb_ℤ (pos 0) min && ltb_ℤ fee min then min else fee in
    let capped = if ltb_ℤ (pos 0) max && ltb_ℤ max raised then max else raised in
    if ltb_ℤ capped (pos 0) then pos 0 else capped

-- What to charge on a confirmed deposit.
unfoldable pub deposit_fee : DepositRates → ℤ → ℤ
deposit_fee rates amount =
    let raw = apply_bps amount rates.bps +ℤ rates.flat in
    let fee = clamp raw rates.min rates.max in if ltb_ℤ amount fee then amount else fee

-- What to reserve on a card authorization.
unfoldable pub transaction_fee : TransactionRates → ℤ → Bool → ℤ
transaction_fee rates amount foreign =
    let base = apply_bps amount rates.bps +ℤ rates.flat in
    let fee = if foreign then base +ℤ apply_bps amount rates.fx_bps else base in
    if ltb_ℤ fee (pos 0) then pos 0 else fee

-- `record`: a charge against the posting that moved the money; nothing for a fee that is not positive.
unfoldable pub record_charge : FeeRow → Action Books (Unit {0})
record_charge row b = if leb_ℤ row.amount (pos 0) then pure tt b else create_fee row b
