-- ===== src/Ledger/Overdraft.antt =====
-- I5 of apps/api/src/ledger/ledger.service.ts: which movements can take a user below zero.
use tenzopay.Base.{
  ℕ, ℤ, pos, ◌+ℤ◌, ◌-ℤ◌, ◌≤ℤ◌, ◌<ℤ◌, ltb_ℤ, Bool-cases, int_laws, zero-+ℤ, String, subst, none,
  true, false, List, [], ◌∷◌, ◌≡◌, inl, inr, refl, arith,
}
use tenzopay.Effects.{Result, ok}
use tenzopay.Ledger.Books.{
  AccountKey, key_eq, key_eq_iff, FeeType, FeeRow, LedgerAccountKind, Books, find_transaction,
}
use tenzopay.Ledger.Books
use tenzopay.Ledger.Movements.{available_of, held_of, system_of, place_hold_body}
use tenzopay.Ledger.Invariant.{IsValid}
use tenzopay.Ledger.View.{balance_at, effect}
use tenzopay.Ledger.Moved.{Moved}
use tenzopay.Ledger.Holds.{place_hold_body-Posted}
use tenzopay.Ledger.Wallet.{
  Wallet, wallet_of, Movement, deposited, reversed, charged, held, released, refunded, settled,
  adjusted, key_of, spend,
}
use tenzopay.Ledger.Legs.{legs_of, available-spend, held-spend}
use tenzopay.Effects.{
  Thrown, err, ledger_imbalance, amount_not_positive, insufficient_balance, transaction, keep_if_ok,
}
use tenzopay.Ledger.Posting.{assert_balanced, net_of, post}
use tenzopay.Ledger.Movements.{entry, new_hold}
use tenzopay.Ledger.Ensure.{ensured, ensure_account_lem}
use tenzopay.Ledger.Pairs.{opened_two, first_id, second_id, first-balance, require_funds_enough}
use tenzopay.Ledger.Holds.{place_hold_body_new, place_hold_body_known, place_hold_body_refused}
use tenzopay.Ledger.Books.{debit, credit}
use tenzopay.Base.{leb_ℤ, Option-cases}
use tenzopay.Ledger.Integrity.{is_user_kind, NonNegative}

module _ (c : String) (k : AccountKey) (u : is_user_kind k.kind ≡ true) where
  clearing_apart : key_eq (system_of Books.system_deposit_clearing c) k ≡ false
  unfolding key_eq Books.kind_eq
  clearing_apart = ground arith

  settlement_apart : key_eq (system_of Books.system_card_settlement c) k ≡ false
  unfolding key_eq Books.kind_eq
  settlement_apart = ground arith

  revenue_apart : key_eq (system_of Books.system_fee_revenue c) k ≡ false
  unfolding key_eq Books.kind_eq
  revenue_apart = ground arith

  adjustment_apart : key_eq (system_of Books.system_adjustment c) k ≡ false
  unfolding key_eq Books.kind_eq
  adjustment_apart = ground arith

-- A movement has no leg for a user's account other than the two of its user.
module _ (user currency : String) (k : AccountKey) (u : is_user_kind k.kind ≡ true)
    (a : key_eq (available_of user currency) k ≡ false)
    (h : key_eq (held_of user currency) k ≡ false) where
  no_leg_for : (m : Movement) → effect (legs_of m user currency) k ≡ pos 0
  unfolding legs_of
  no_leg_for (deposited id amount fee) =
      simp (a, clearing_apart currency k u, revenue_apart currency k u) (omega int_laws)
  no_leg_for (reversed id amount fee) =
      simp (a, clearing_apart currency k u, revenue_apart currency k u) (omega int_laws)
  no_leg_for (settled key held_amount amount fee) =
      simp (a, h, settlement_apart currency k u, revenue_apart currency k u) (omega int_laws)
  no_leg_for (refunded key amount) = simp (a, settlement_apart currency k u) (omega int_laws)
  no_leg_for (charged key amount type) = simp (a, revenue_apart currency k u) (omega int_laws)
  no_leg_for (held key amount) = simp (a, h) (omega int_laws)
  no_leg_for (released key amount) = simp (a, h) (omega int_laws)
  no_leg_for (adjusted key amount) = elim (Bool-cases (ltb_ℤ (pos 0) amount)) [
    | inl up ↦ rw up (simp (a, adjustment_apart currency k u) (omega int_laws))
    | inr down ↦ rw down (simp (a, adjustment_apart currency k u) (omega int_laws))
  ]

module _ (user currency : String) (b : Books) (v : IsValid b) (n : NonNegative b) where
  abbrev w : Wallet
  w = wallet_of user currency b

  Moved-NonNegative :
      (m : Movement) {rows : List FeeRow} {id : ℕ} {b' : Books}
      → Moved b (key_of m) (legs_of m user currency) rows id b'
      → pos 0 ≤ℤ (spend m w).available
      → pos 0 ≤ℤ (spend m w).held
      → NonNegative b'
  Moved-NonNegative m {b' = b'} moved p q = record {
    user_balances = λ k u. elim (Bool-cases (key_eq (available_of user currency) k)) [
      | inl same ↦
          subst (λ j. pos 0 ≤ℤ balance_at j b') ((key_eq_iff _ _).0 same)
            (rw (moved.balances (available_of user currency), available-spend user currency w m) p)
      | inr a ↦ elim (Bool-cases (key_eq (held_of user currency) k)) [
        | inl same ↦
            subst (λ j. pos 0 ≤ℤ balance_at j b') ((key_eq_iff _ _).0 same)
              (rw (moved.balances (held_of user currency), held-spend user currency w m) q)
        | inr h ↦
            rw (moved.balances k, no_leg_for user currency k u a h m, zero-+ℤ (balance_at k b))
              (n.user_balances k u)
      ]
    ];
  }

refused_pair :
    (ty : Books.LedgerTransactionType) (key : String) (i h : ℕ) (amount : ℤ) (currency : String)
    (c : Books)
    → leb_ℤ amount (pos 0) ≡ true
    → post ty key (entry i debit amount currency ∷ entry h credit amount currency ∷ []) c
      ≡ (err (ledger_imbalance amount_not_positive), c)
unfolding post assert_balanced net_of
refused_pair ty key i h amount currency c low = rw (low, post)

module _ (user key : String) (amount : ℤ) (currency : String) (b : Books) (v : IsValid b)
    (fresh : find_transaction key b.transactions ≡ none) where
  not_positive_refused :
      leb_ℤ amount (pos 0) ≡ true
      → amount ≤ℤ balance_at (available_of user currency) b
      → (place_hold_body user key amount currency b).0 ≡ err (ledger_imbalance amount_not_positive)
  unfolding new_hold
  not_positive_refused low covered =
      let j = available_of user currency in
      let k = held_of user currency in
      rw (
        place_hold_body_new user key amount currency b fresh,
        ensure_account_lem j b,
        ensure_account_lem k (ensured j b),
        require_funds_enough (first_id j k b) amount (balance_at j b) (opened_two j k b)
            (first-balance j k b v) covered,
        refused_pair Books.card_authorization key (first_id j k b) (second_id j k b) amount currency
            (opened_two j k b) low,
      )

rolled_back :
    {A : Type 0} (b : Books) (r : Result A × Books) (e : Thrown)
    → r.0 ≡ err e
    → (keep_if_ok b r).1 ≡ b
rolled_back b (ok a, c) e h = cc
rolled_back b (err x, c) e h = refl

left_over : (a x : ℤ) → x ≤ℤ a → pos 0 ≤ℤ (a -ℤ x)
left_over a x h = omega int_laws

held_more : (a x : ℤ) → pos 0 ≤ℤ a → pos 0 <ℤ x → pos 0 ≤ℤ (a +ℤ x)
held_more a x h p = omega int_laws

at_least : (a x : ℤ) → ltb_ℤ a x ≡ false → x ≤ℤ a
at_least a x h = ground arith

above_zero : (x : ℤ) → leb_ℤ x (pos 0) ≡ false → pos 0 <ℤ x
above_zero x h = ground arith

-- I5: in valid books, whatever the amount and the key, the transaction that places a hold leaves
-- no user balance negative where none was.
pub place_hold-NonNegative :
    (user key : String) (amount : ℤ) (currency : String) (b : Books)
    → IsValid b
    → NonNegative b
    → NonNegative (transaction (place_hold_body user key amount currency) b).1
unfolding transaction Books.kind_eq key_of legs_of spend
place_hold-NonNegative user key amount currency b v n =
    let body = place_hold_body user key amount currency b in
    let available = balance_at (available_of user currency) b in
    let held_balance = n.user_balances (held_of user currency) refl in
    elim (Option-cases (find_transaction key b.transactions)) [
      | inr (id, found) ↦ rw (place_hold_body_known user key amount currency b id found) n
      | inl fresh ↦ elim (Bool-cases (ltb_ℤ available amount)) [
        | inl short ↦
            rw
              (rolled_back b body (insufficient_balance available amount)
                (place_hold_body_refused user key amount currency b v fresh (ground arith)))
              n
        | inr enough ↦ elim (Bool-cases (leb_ℤ amount (pos 0))) [
          | inl low ↦
              rw
                (rolled_back b body (ledger_imbalance amount_not_positive)
                  (not_positive_refused user key amount currency b v fresh low (ground arith)))
                n
          | inr high ↦
              let covered = at_least available amount enough in
              let positive = above_zero amount high in
              let (b', e, moved) =
                place_hold_body-Posted user key amount currency b v positive fresh covered in
              rw e (
                Moved-NonNegative user currency b v n (held key amount) moved
                  (left_over available amount covered) (held_more _ amount held_balance positive))
        ]
      ]
    ]
