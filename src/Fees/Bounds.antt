-- ===== src/Fees/Bounds.antt =====
-- Bounds of the fees of apps/api/src/ledger/fees.service.ts.
use tenzopay.Base.{
  ℕ, ◌+◌, ◌*◌, ◌/◌, ◌≤◌, ℤ, pos, pos-+ℤ, pos-*ℤ, negsuc, ◌+ℤ◌, ◌*ℤ◌, div_ℤ, ◌≤ℤ◌, ◌<ℤ◌, ltb_ℤ,
  int_laws, Bool, true, false, if◌then◌else◌, ◌≡◌, arith,
}
use tenzopay.Fees.Rates.{
  DepositRates, TransactionRates, apply_bps, clamp, deposit_fee, transaction_fee,
}

pub apply_bps_pos : (a b : ℕ) → apply_bps (pos a) (pos b) ≡ pos (a * b / 10000)
unfolding apply_bps div_ℤ ◌*ℤ◌
apply_bps_pos a b = ground arith

pub apply_bps_nonneg : (a b : ℤ) → pos 0 ≤ℤ apply_bps a b
unfolding apply_bps div_ℤ ◌*ℤ◌
apply_bps_nonneg a b = ground arith

-- A basis-point fee of an amount and a rate that are not negative is the exact product, rounded down
-- to a whole unit: never up, and never by a unit or more.
pub apply_bps_bounds :
    (a b : ℤ)
    → pos 0 ≤ℤ a
    → pos 0 ≤ℤ b
    → (pos 10000 *ℤ apply_bps a b ≤ℤ a *ℤ b) × (a *ℤ b <ℤ pos 10000 *ℤ (apply_bps a b +ℤ pos 1))
apply_bps_bounds (pos a) (pos b) p q =
    let fee = a * b / 10000 in
    rw (apply_bps_pos a b, pos-*ℤ a b, pos-+ℤ fee 1, pos-*ℤ 10000 fee, pos-*ℤ 10000 (fee + 1))
      (omega arith, omega arith)
apply_bps_bounds (negsuc a) b p q = absurd (ground arith)
apply_bps_bounds (pos a) (negsuc b) p q = absurd (ground arith)

-- A deposit fee is between zero and the deposit, whatever the rates.
pub deposit_fee_bounds :
    (rates : DepositRates) (amount : ℤ)
    → pos 0 ≤ℤ amount
    → (pos 0 ≤ℤ deposit_fee rates amount) × (deposit_fee rates amount ≤ℤ amount)
unfolding deposit_fee clamp
deposit_fee_bounds rates amount p = ground arith

-- A ceiling above zero is not exceeded, and a floor that is neither above the ceiling nor above the
-- deposit is reached.
pub deposit_fee_limits :
    (rates : DepositRates) (amount : ℤ)
    → pos 0 ≤ℤ amount
    → pos 0 <ℤ rates.max
    → rates.min ≤ℤ rates.max
    → rates.min ≤ℤ amount
    → (rates.min ≤ℤ deposit_fee rates amount) × (deposit_fee rates amount ≤ℤ rates.max)
unfolding deposit_fee clamp
deposit_fee_limits rates amount p m f a = ground arith

div_mono : (a b : ℕ) → a ≤ b → a / 10000 ≤ b / 10000
div_mono a b h = omega arith

no_bps_of_debt : (a : ℕ) (r : ℤ) → apply_bps (negsuc a) r ≡ pos 0
unfolding apply_bps
no_bps_of_debt a r = ground arith

no_bps_at_negative : (a : ℤ) (r : ℕ) → apply_bps a (negsuc r) ≡ pos 0
unfolding apply_bps
no_bps_at_negative a r = ground arith

apply_bps_mono : (a b r : ℤ) → a ≤ℤ b → apply_bps a r ≤ℤ apply_bps b r
apply_bps_mono (pos a) (pos b) (pos r) h =
    rw (apply_bps_pos a r, apply_bps_pos b r) (grind (arith, div_mono (a * r) (b * r)))
apply_bps_mono (negsuc a) b (pos r) h = rw (no_bps_of_debt a (pos r)) (apply_bps_nonneg b (pos r))
apply_bps_mono a b (negsuc r) h = rw (no_bps_at_negative a r) (apply_bps_nonneg b (negsuc r))
apply_bps_mono (pos a) (negsuc b) (pos r) h = absurd (ground arith)

cut_mono :
    (x y : ℤ)
    → x ≤ℤ y
    → (if ltb_ℤ x (pos 0) then pos 0 else x) ≤ℤ (if ltb_ℤ y (pos 0) then pos 0 else y)
cut_mono x y h = ground arith

sum_mono : (x y z w : ℤ) → x ≤ℤ y → z ≤ℤ w → x +ℤ z ≤ℤ y +ℤ w
sum_mono x y z w h k = omega int_laws

-- What is reserved for a purchase grows with the amount, at home and abroad.
pub transaction_fee_mono :
    (rates : TransactionRates) (a b : ℤ) (foreign : Bool)
    → a ≤ℤ b
    → transaction_fee rates a foreign ≤ℤ transaction_fee rates b foreign
unfolding transaction_fee
transaction_fee_mono rates a b true h =
    let x = apply_bps a rates.bps in
    let y = apply_bps b rates.bps in
    let v = apply_bps a rates.fx_bps in
    let w = apply_bps b rates.fx_bps in
    cut_mono (x +ℤ rates.flat +ℤ v) (y +ℤ rates.flat +ℤ w) (
      sum_mono (x +ℤ rates.flat) (y +ℤ rates.flat) v w
        (sum_mono x y rates.flat rates.flat (apply_bps_mono a b rates.bps h) (omega arith))
        (apply_bps_mono a b rates.fx_bps h))
transaction_fee_mono rates a b false h =
    let x = apply_bps a rates.bps in
    let y = apply_bps b rates.bps in
    cut_mono (x +ℤ rates.flat) (y +ℤ rates.flat)
      (sum_mono x y rates.flat rates.flat (apply_bps_mono a b rates.bps h) (omega arith))
