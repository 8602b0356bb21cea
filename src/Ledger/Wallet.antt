-- ===== src/Ledger/Wallet.antt =====
-- The abstract view of the ledger: a user's wallet, two numbers, and what each movement does to it.
use tenzopay.Base.{ℕ, ℤ, pos, ◌+ℤ◌, ◌-ℤ◌, neg_ℤ, ◌≤ℤ◌, ◌<ℤ◌, String, ◌<>◌, ◌⊎◌}
use tenzopay.Effects.{ok, Action, continue}
use tenzopay.Ledger.Books.{FeeType, Books}
use tenzopay.Ledger.Movements.{
  available_of, held_of, credit_deposit_body, reverse_deposit_body, charge_fee_body,
  place_hold_body, release_hold_body, settle_authorization_body, credit_refund_body,
  post_adjustment_body,
}
use tenzopay.Ledger.View.{balance_at}

pub record Wallet : Type 0 where
  pub available : ℤ
  pub held : ℤ

abbrev pub wallet_of : String → String → Books → Wallet
wallet_of user currency b = record {
  available = balance_at (available_of user currency) b;
  held = balance_at (held_of user currency) b;
}

-- The movements of one user's money, each with its amounts.
pub data Movement : Type 0 where
  deposited reversed : (id : String) (amount fee : ℤ) → Movement
  charged : (key : String) (amount : ℤ) (type : FeeType) → Movement
  held released refunded : (key : String) (amount : ℤ) → Movement
  settled : (key : String) (held_amount amount fee : ℤ) → Movement
  adjusted : (key : String) (amount : ℤ) → Movement

-- The idempotency key of a movement.
unfoldable pub key_of : Movement → String
key_of (deposited id amount fee) = "deposit:" <> id <> ":confirm"
key_of (reversed id amount fee) = "deposit:" <> id <> ":reverse"
key_of (charged key amount type) = key
key_of (held key amount) = key
key_of (released key amount) = key
key_of (refunded key amount) = key
key_of (settled key held_amount amount fee) = key
key_of (adjusted key amount) = key

-- The body that makes the movement.
unfoldable pub perform : Movement → String → String → Action Books ℕ
perform (deposited id amount fee) user currency b =
    credit_deposit_body user id amount fee currency b
perform (reversed id amount fee) user currency b =
    reverse_deposit_body user id amount fee currency b
perform (charged key amount type) user currency b = charge_fee_body user key amount type currency b
perform (held key amount) user currency b =
    continue (λ h c. (ok h.ledger_transaction_id, c)) (place_hold_body user key amount currency b)
perform (released key amount) user currency b = release_hold_body user key amount currency b
perform (refunded key amount) user currency b = credit_refund_body user key amount currency b
perform (settled key held_amount amount fee) user currency b =
    settle_authorization_body user key held_amount amount fee currency b
perform (adjusted key amount) user currency b = post_adjustment_body user key amount currency b

-- What the movement promises to do to the wallet.
unfoldable pub spend : Movement → Wallet → Wallet
spend (deposited id amount fee) w = record w { available = w.available +ℤ (amount -ℤ fee) }
spend (reversed id amount fee) w = record w { available = w.available -ℤ (amount -ℤ fee) }
spend (charged key amount type) w = record w { available = w.available -ℤ amount }
spend (held key amount) w = record { available = w.available -ℤ amount; held = w.held +ℤ amount }
spend (released key amount) w = record {
  available = w.available +ℤ amount;
  held = w.held -ℤ amount;
}
spend (refunded key amount) w = record w { available = w.available +ℤ amount }
spend (settled key held_amount amount fee) w = record {
  available = w.available +ℤ (held_amount -ℤ amount -ℤ fee);
  held = w.held -ℤ held_amount;
}
spend (adjusted key amount) w = record w { available = w.available +ℤ amount }

-- When the movement is made: positive amounts, a fee that leaves something of a deposit, and funds
-- for what is taken from available.
abbrev pub Allowed : Movement → Wallet → Type 0
Allowed (deposited id amount fee) w = (pos 0 ≤ℤ fee) × (fee <ℤ amount)
Allowed (reversed id amount fee) w = (pos 0 ≤ℤ fee) × (fee <ℤ amount)
Allowed (charged key amount type) w = (pos 0 <ℤ amount) × (amount ≤ℤ w.available)
Allowed (held key amount) w = (pos 0 <ℤ amount) × (amount ≤ℤ w.available)
Allowed (released key amount) w = pos 0 <ℤ amount
Allowed (refunded key amount) w = pos 0 <ℤ amount
Allowed (settled key held_amount amount fee) w =
    (pos 0 <ℤ held_amount) × (pos 0 ≤ℤ amount) × (pos 0 ≤ℤ fee)
Allowed (adjusted key amount) w =
    (pos 0 <ℤ amount) ⊎ ((amount <ℤ pos 0) × (neg_ℤ amount ≤ℤ w.available))
