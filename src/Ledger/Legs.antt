-- ===== src/Ledger/Legs.antt =====
-- The legs that each movement posts, and what they add to the balances of a user.
use tenzopay.Base.{
  pos, ◌+ℤ◌, neg_ℤ, ltb_ℤ, Bool-cases, int_laws, String, true, false, if◌then◌else◌, [], ◌∷◌, ◌≡◌,
  ◌≢◌, inl, inr, refl, arith,
}
use tenzopay.Ledger.Books.{
  AccountKey, key_eq, key_eq_iff, FeeType, FeeRow, LedgerAccountKind, Books, find_transaction,
}
use tenzopay.Ledger.Books
use tenzopay.Ledger.Movements.{available_of, held_of, system_of}
use tenzopay.Ledger.View.{Legs, effect}
use tenzopay.Ledger.Deposited.{deposit_legs, reversal_legs}
use tenzopay.Ledger.FeeParts.{fee_account}
use tenzopay.Ledger.Settled.{settlement_legs}
use tenzopay.Ledger.Wallet.{
  Wallet, Movement, deposited, reversed, charged, held, released, refunded, settled, adjusted,
  spend,
}

-- Which keys are which.
module _ (user currency : String) where
  available_self : key_eq (available_of user currency) (available_of user currency) ≡ true
  available_self = (key_eq_iff _ _).1 refl

  held_self : key_eq (held_of user currency) (held_of user currency) ≡ true
  held_self = (key_eq_iff _ _).1 refl

  available_not_held :
      (other c : String) → key_eq (available_of user currency) (held_of other c) ≡ false
  unfolding key_eq Books.kind_eq
  available_not_held other c = refl

  held_not_available :
      (other c : String) → key_eq (held_of user currency) (available_of other c) ≡ false
  unfolding key_eq Books.kind_eq
  held_not_available other c = refl

  module _ (other : String) (apart : user ≢ other) where
    available_apart :
        (c : String) → key_eq (available_of user currency) (available_of other c) ≡ false
    available_apart c =
        ground (arith, key_eq_iff (available_of user currency) (available_of other c))

    held_apart : (c : String) → key_eq (held_of user currency) (held_of other c) ≡ false
    held_apart c = ground (arith, key_eq_iff (held_of user currency) (held_of other c))

-- The global accounts are nobody's.
module _ (c user currency : String) where
  clearing_not_available :
      key_eq (system_of Books.system_deposit_clearing c) (available_of user currency) ≡ false
  unfolding key_eq Books.kind_eq
  clearing_not_available = refl

  clearing_not_held :
      key_eq (system_of Books.system_deposit_clearing c) (held_of user currency) ≡ false
  unfolding key_eq Books.kind_eq
  clearing_not_held = refl

  settlement_not_available :
      key_eq (system_of Books.system_card_settlement c) (available_of user currency) ≡ false
  unfolding key_eq Books.kind_eq
  settlement_not_available = refl

  settlement_not_held :
      key_eq (system_of Books.system_card_settlement c) (held_of user currency) ≡ false
  unfolding key_eq Books.kind_eq
  settlement_not_held = refl

  revenue_not_available :
      key_eq (system_of Books.system_fee_revenue c) (available_of user currency) ≡ false
  unfolding key_eq Books.kind_eq
  revenue_not_available = refl

  revenue_not_held : key_eq (system_of Books.system_fee_revenue c) (held_of user currency) ≡ false
  unfolding key_eq Books.kind_eq
  revenue_not_held = refl

  adjustment_not_available :
      key_eq (system_of Books.system_adjustment c) (available_of user currency) ≡ false
  unfolding key_eq Books.kind_eq
  adjustment_not_available = refl

  adjustment_not_held : key_eq (system_of Books.system_adjustment c) (held_of user currency) ≡ false
  unfolding key_eq Books.kind_eq
  adjustment_not_held = refl

-- The legs that a movement posts.
unfoldable pub legs_of : Movement → String → String → Legs
legs_of (deposited id amount fee) user currency = deposit_legs user currency amount fee
legs_of (reversed id amount fee) user currency = reversal_legs user currency amount fee
legs_of (charged key amount type) user currency =
    (available_of user currency, neg_ℤ amount) ∷ (fee_account currency, amount) ∷ []
legs_of (held key amount) user currency =
    (available_of user currency, neg_ℤ amount) ∷ (held_of user currency, amount) ∷ []
legs_of (released key amount) user currency =
    (held_of user currency, neg_ℤ amount) ∷ (available_of user currency, amount) ∷ []
legs_of (refunded key amount) user currency =
    (system_of Books.system_card_settlement currency, neg_ℤ amount)
    ∷ (available_of user currency, amount)
    ∷ []
legs_of (settled key held_amount amount fee) user currency =
    settlement_legs user currency held_amount amount fee
legs_of (adjusted key amount) user currency =
    if ltb_ℤ (pos 0) amount
    then (system_of Books.system_adjustment currency, neg_ℤ amount)
      ∷ (available_of user currency, amount)
      ∷ []
    else (available_of user currency, neg_ℤ (neg_ℤ amount))
      ∷ (system_of Books.system_adjustment currency, neg_ℤ amount)
      ∷ []

ruleset key_tests = (
  available_self, held_self, available_not_held, held_not_available, clearing_not_available,
  clearing_not_held, settlement_not_available, settlement_not_held, revenue_not_available,
  revenue_not_held, adjustment_not_available, adjustment_not_held,
)

module _ (user currency : String) (w : Wallet) where
  pub available-spend :
      (m : Movement)
      → effect (legs_of m user currency) (available_of user currency) +ℤ w.available
        ≡ (spend m w).available
  unfolding legs_of spend
  available-spend (deposited id amount fee) = simp key_tests (omega int_laws)
  available-spend (adjusted key amount) = elim (Bool-cases (ltb_ℤ (pos 0) amount)) [
    | inl up ↦ rw up (simp key_tests (omega int_laws))
    | inr down ↦ rw down (simp key_tests (omega int_laws))
  ]
  available-spend _ = simp key_tests (omega int_laws)

  pub held-spend :
      (m : Movement)
      → effect (legs_of m user currency) (held_of user currency) +ℤ w.held ≡ (spend m w).held
  unfolding legs_of spend
  held-spend (deposited id amount fee) = simp key_tests (omega int_laws)
  held-spend (adjusted key amount) = elim (Bool-cases (ltb_ℤ (pos 0) amount)) [
    | inl up ↦ rw up (simp key_tests (omega int_laws))
    | inr down ↦ rw down (simp key_tests (omega int_laws))
  ]
  held-spend _ = simp key_tests (omega int_laws)

-- No movement has a leg for another user.
module _ (user currency other : String) (apart : user ≢ other) (c : String) where
  pub available-others :
      (m : Movement) → effect (legs_of m user currency) (available_of other c) ≡ pos 0
  unfolding legs_of
  available-others (deposited id amount fee) =
      simp (key_tests, available_apart user currency other apart) (omega int_laws)
  available-others (adjusted key amount) = elim (Bool-cases (ltb_ℤ (pos 0) amount)) [
    | inl up ↦ rw up (simp (key_tests, available_apart user currency other apart) (omega int_laws))
    | inr down ↦
        rw down (simp (key_tests, available_apart user currency other apart) (omega int_laws))
  ]
  available-others _ = simp (key_tests, available_apart user currency other apart) (omega int_laws)

  pub held-others : (m : Movement) → effect (legs_of m user currency) (held_of other c) ≡ pos 0
  unfolding legs_of
  held-others (deposited id amount fee) = simp key_tests (omega int_laws)
  held-others (adjusted key amount) = elim (Bool-cases (ltb_ℤ (pos 0) amount)) [
    | inl up ↦ rw up (simp key_tests (omega int_laws))
    | inr down ↦ rw down (simp key_tests (omega int_laws))
  ]
  held-others _ = simp (key_tests, held_apart user currency other apart) (omega int_laws)
