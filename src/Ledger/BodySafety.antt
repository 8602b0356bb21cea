-- ===== src/Ledger/BodySafety.antt =====
-- Every transaction body of Ledger/Movements.antt, on every branch and for all arguments.
use tenzopay.Base.{
  ℕ, ◌<◌, ℤ, pos, ltb_ℤ, String, some, Option-cases, Bool-cases, inl, inr, ◌⊎◌, List, length, All,
  ◌≡◌,
}
use tenzopay.Effects.{Thrown, insufficient_balance, Result, ok, err}
use tenzopay.Ledger.Books.{
  AccountKey, LedgerDirection, debit, credit, LedgerAccount, EntryInput, FeeType, Books,
  find_account, find_transaction, create_fee,
}
use tenzopay.Ledger.Books
use tenzopay.Ledger.Balances.{get_account_balance}
use tenzopay.Ledger.Movements.{
  available_of, held_of, system_of, require_funds, place_hold_body, new_hold, release_hold_body,
  credit_refund_body, post_adjustment_body, magnitude,
}
use tenzopay.Ledger.Invariant.{IsValid, find_account-lt}
use tenzopay.Ledger.Ensure.{ensured, ensure_account_lem}
use tenzopay.Ledger.Moved.{Opened}
use tenzopay.Ledger.Pairs.{
  opened_two, first_id, second_id, first-found, second-found, opened_two-Opened,
}
use tenzopay.Ledger.Holds.{place_hold_body_new, place_hold_body_known}
use tenzopay.Ledger.Safety.{Extends-refl, Keeps, post-Keeps, Keeps-then}

-- Opening accounts first changes nothing of this.
pub Keeps-Opened :
    {A : Type 0} {b c : Books} (key : String) (id_of : A → ℕ) (r : Result A × Books)
    → Opened b c
    → Keeps c key id_of r
    → Keeps b key id_of r
Keeps-Opened key id_of (ok a, b') o g = record {
  valid = g.valid;
  extends = record { kept = λ j i h. g.extends.kept j i (rw o.transactions h) };
  posted = g.posted;
}
Keeps-Opened key id_of (err e, b') o g = tt

abbrev pub Known : Books → List EntryInput → Type 0
Known c es = All (λ e. e.account_id < length c.accounts) es

pub found-lt :
    {c : Books} (k : AccountKey) (i : ℕ)
    → IsValid c
    → find_account k c.accounts ≡ some i
    → i < length c.accounts
found-lt {c} k i v f = find_account-lt k c.accounts i v.accounts f

-- Two accounts opened, and a posting between them in either order.
module _ (j k : AccountKey) (b : Books) (v : IsValid b) where
  pub first-lt : first_id j k b < length (opened_two j k b).accounts
  first-lt = found-lt j _ (opened_two-Opened j k b v).valid (first-found j k b)

  pub second-lt : second_id j k b < length (opened_two j k b).accounts
  second-lt = found-lt k _ (opened_two-Opened j k b v).valid (second-found j k b)

module _ (user key : String) (amount : ℤ) (currency : String) (b : Books) (v : IsValid b) where
  pub release_hold_body-Keeps :
      Keeps b key (λ id. id) (release_hold_body user key amount currency b)
  unfolding release_hold_body
  release_hold_body-Keeps =
      let j = available_of user currency in
      let k = held_of user currency in
      let o = opened_two-Opened j k b v in
      rw (ensure_account_lem j b, ensure_account_lem k (ensured j b))
        (Keeps-Opened key (λ id. id) _ o
          (post-Keeps _ key _ _ o.valid (second-lt j k b v, (first-lt j k b v, tt))))

  pub credit_refund_body-Keeps :
      Keeps b key (λ id. id) (credit_refund_body user key amount currency b)
  unfolding credit_refund_body
  credit_refund_body-Keeps =
      let j = available_of user currency in
      let k = system_of Books.system_card_settlement currency in
      let o = opened_two-Opened j k b v in
      rw (ensure_account_lem j b, ensure_account_lem k (ensured j b))
        (Keeps-Opened key (λ id. id) _ o
          (post-Keeps _ key _ _ o.valid (second-lt j k b v, (first-lt j k b v, tt))))

pub require_funds_cases :
    (i : ℕ) (amount : ℤ) (c : Books)
    → ((e : Thrown) × (require_funds i amount c ≡ (err e, c)))
      ⊎ ((funds : ℤ) × (require_funds i amount c ≡ (ok funds, c)))
unfolding require_funds
require_funds_cases i amount c = elim (Bool-cases (ltb_ℤ (get_account_balance i c) amount)) [
  | inl t ↦ inl (insufficient_balance (get_account_balance i c) amount, rw t)
  | inr t ↦ inr (get_account_balance i c, rw t)
]

module _ (user key : String) (amount : ℤ) (currency : String) (b : Books) (v : IsValid b) where
  new_hold-Keeps : Keeps b key (λ h. h.ledger_transaction_id) (new_hold user key amount currency b)
  unfolding new_hold
  new_hold-Keeps =
      let j = available_of user currency in
      let k = held_of user currency in
      let o = opened_two-Opened j k b v in
      elim (require_funds_cases (first_id j k b) amount (opened_two j k b)) [
        | inl (e, short) ↦ rw (ensure_account_lem j b, ensure_account_lem k (ensured j b), short) tt
        | inr (funds, enough) ↦
            rw (ensure_account_lem j b, ensure_account_lem k (ensured j b), enough)
              (Keeps-Opened key (λ h. h.ledger_transaction_id) _ o
                (Keeps-then (λ id. id) (λ h. h.ledger_transaction_id) _ _
                  (post-Keeps _ key _ _ o.valid (first-lt j k b v, (second-lt j k b v, tt)))
                  (λ a b' g. g)))
      ]

  pub place_hold_body-Keeps :
      Keeps b key (λ h. h.ledger_transaction_id) (place_hold_body user key amount currency b)
  place_hold_body-Keeps = elim (Option-cases (find_transaction key b.transactions)) [
    | inl fresh ↦ rw (place_hold_body_new user key amount currency b fresh) new_hold-Keeps
    | inr (id, found) ↦
        rw (place_hold_body_known user key amount currency b id found)
          (record { valid = v; extends = Extends-refl b; posted = found })
  ]

  pub post_adjustment_body-Keeps :
      Keeps b key (λ id. id) (post_adjustment_body user key amount currency b)
  unfolding post_adjustment_body
  post_adjustment_body-Keeps =
      let j = available_of user currency in
      let k = system_of Books.system_adjustment currency in
      let o = opened_two-Opened j k b v in
      elim (Bool-cases (ltb_ℤ (pos 0) amount)) [
        | inl up ↦
            rw (ensure_account_lem j b, ensure_account_lem k (ensured j b), up)
              (Keeps-Opened key (λ id. id) _ o
                (post-Keeps _ key _ _ o.valid (second-lt j k b v, (first-lt j k b v, tt))))
        | inr down ↦
            elim (require_funds_cases (first_id j k b) (magnitude amount) (opened_two j k b)) [
              | inl (e, short) ↦
                  rw (ensure_account_lem j b, ensure_account_lem k (ensured j b), down, short) tt
              | inr (funds, enough) ↦
                  rw (ensure_account_lem j b, ensure_account_lem k (ensured j b), down, enough)
                    (Keeps-Opened key (λ id. id) _ o
                      (post-Keeps _ key _ _ o.valid (first-lt j k b v, (second-lt j k b v, tt))))
            ]
      ]
