-- ===== src/Money/Conversions.antt =====
-- What the conversions of packages/shared/src/money.ts promise.
use native.Mathlib.Nat.{
  add-zero, add-suc, zero-div, mul_assoc, div-mul-le_self, lt-div-mul-add, mul-le-mul_right,
  mul-lt-mul_of_pos_right, one-le-pow, pow-suc,
}
use tenzopay.Base.{
  ℕ, zero, suc, ◌+◌, ◌-◌, ◌*◌, ◌/◌, ◌^◌, ◌≤◌, ◌<◌, ℤ, pos, pos-*ℤ, ◌*ℤ◌, div_ℤ, ◌≤ℤ◌, ◌<ℤ◌, ◌+ℤ◌,
  pos-+ℤ, ltb, ltb→lt, ◌==◌, ==_iff, Bool-cases, inl, inr, String, ◌≡◌, sym, subst, arith,
}
use tenzopay.Effects.{ok}
use tenzopay.Money.Units.{
  decimals_for, rescale, from_token_raw_value, usdt_to_usd_cents, usd_cents_to_usdt,
}

-- `v` minor units, of which `10 ^ target` are one, are what `r` raw units, of which
-- `10 ^ token_decimals` are one, are worth, but for less than one minor unit.
abbrev pub IsWorth : ℕ → ℕ → ℕ → ℕ → Type 0
IsWorth v r token_decimals target =
    (v * 10 ^ token_decimals ≤ r * 10 ^ target) × (r * 10 ^ target < suc v * 10 ^ token_decimals)

pow_add : (n m : ℕ) → 10 ^ (n + m) ≡ 10 ^ n * 10 ^ m
pow_add n zero = rw (add-zero n) (omega arith)
pow_add n (suc m) =
    rw (add-suc n m, pow-suc 10 (n + m), pow-suc 10 m, pow_add n m) (mul_assoc (10 ^ n) (10 ^ m) 10)

pow_split : (n m : ℕ) → n < m → 10 ^ m ≡ 10 ^ (m - n) * 10 ^ n
pow_split n m h = subst (λ k. 10 ^ k ≡ 10 ^ (m - n) * 10 ^ n) (omega arith) (pow_add (m - n) n)

pow_positive : (n : ℕ) → 0 < 10 ^ n
pow_positive n = one-le-pow n 10 (omega arith)

below_next : (r p : ℕ) → 0 < p → r < suc (r / p) * p
below_next r p h = grind (arith, lt-div-mul-add {a = r} {b = p} h)

-- `p` raw units of the token make one minor unit.
coarser : (r p q : ℕ) → 0 < p → 0 < q → (r / p * (p * q) ≤ r * q) × (r * q < suc (r / p) * (p * q))
coarser r p q h k = (
  rw (sym (mul_assoc (r / p) p q)) (mul-le-mul_right q (div-mul-le_self r p)),
  rw (sym (mul_assoc (suc (r / p)) p q)) (mul-lt-mul_of_pos_right (below_next r p h) k),
)

exact : (v x : ℕ) → 0 < x → (v * x ≤ v * x) × (v * x < suc v * x)
exact v x h = (omega arith, mul-lt-mul_of_pos_right {m = v} {n = suc v} {k = x} (omega arith) h)

div_ℤ-pos : (a d : ℕ) → div_ℤ (pos a) d ≡ pos (a / d)
unfolding div_ℤ
div_ℤ-pos a d = ground (arith, zero-div d)

rescale-IsWorth : (r d t : ℕ) → (v : ℕ) × (rescale (pos r) d t ≡ pos v) × IsWorth v r d t
unfolding rescale div_ℤ
rescale-IsWorth r d t = elim (Bool-cases (d == t)) [
  | inl same ↦ (
    r,
    rw same,
    subst (λ k. IsWorth r r d k) ((==_iff d t).0 same) (exact r (10 ^ d) (pow_positive d)),
  )
  | inr apart ↦ elim (Bool-cases (ltb t d)) [
    | inl more ↦
        let p = 10 ^ (d - t) in
        (
          r / p,
          rw (apart, more, div_ℤ-pos r p),
          rw (pow_split t d (ltb→lt t d more))
              (coarser r p (10 ^ t) (pow_positive (d - t)) (pow_positive t)),
        )
    | inr fewer ↦
        let p = 10 ^ (t - d) in
        (
          r * p,
          rw (apart, fewer) (pos-*ℤ r p),
          rw (pow_split d t (ground arith), sym (mul_assoc r p (10 ^ d)))
              (exact (r * p) (10 ^ d) (pow_positive d)),
        )
  ]
]

-- In a known currency a raw value that is not negative is converted to the whole minor units that it
-- is worth: no more than was received, and less than one unit short of it.
pub from_token_raw_value-IsWorth :
    (r d t : ℕ) (currency : String)
    → decimals_for currency ≡ ok t
    → (v : ℕ) × (from_token_raw_value (pos r) d currency ≡ ok (pos v)) × IsWorth v r d t
unfolding from_token_raw_value
from_token_raw_value-IsWorth r d t currency known =
    let (v, e, worth) = rescale-IsWorth r d t in (v, rw (known, e, from_token_raw_value), worth)

-- Cents turned into USDT and back are the same cents.
pub usdt_to_usd_cents-usd_cents_to_usdt :
    (cents : ℤ) → usdt_to_usd_cents (usd_cents_to_usdt cents) ≡ cents
unfolding usdt_to_usd_cents usd_cents_to_usdt div_ℤ ◌*ℤ◌
usdt_to_usd_cents-usd_cents_to_usdt cents = ground arith

-- A card's cents are never more than the USDT that they are cut from, and less than a cent below it.
pub usd_cents_to_usdt-usdt_to_usd_cents :
    (minor : ℕ)
    → let back = usd_cents_to_usdt (usdt_to_usd_cents (pos minor)) in
      (back ≤ℤ pos minor) × (pos minor <ℤ back +ℤ pos 10000)
unfolding usdt_to_usd_cents usd_cents_to_usdt
usd_cents_to_usdt-usdt_to_usd_cents minor =
    let cents = minor / 10000 in
    rw (div_ℤ-pos minor 10000, pos-*ℤ cents 10000, pos-+ℤ (cents * 10000) 10000)
      (omega arith, omega arith)
