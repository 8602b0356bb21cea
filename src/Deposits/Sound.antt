-- ===== src/Deposits/Sound.antt =====
-- The invariant of the deposits of apps/api/src/deposits/deposits.service.ts: a posting behind every
-- credited deposit, and a reversal behind every credited deposit that is gone.
use tenzopay.Base.{
  ℕ, String, str_eq, str_eq_iff, ◌<>◌, some, Bool-cases, inl, inr, ◌⊎◌, List, [], ◌∷◌, All, ◌≡◌,
  sym, subst,
}
use tenzopay.Effects.{Result, ok, err}
use tenzopay.Ledger.Books.{Books, find_transaction}
use tenzopay.Ledger.Invariant.{IsValid}
use tenzopay.Ledger.Safety.{Extends}
use tenzopay.Ledger.Methods.{Weather}
use tenzopay.Ledger.CallSafety.{IsHonest, Final, drifted}
use tenzopay.Deposits.State.{
  confirmed, orphaned, Deposit, Vault, find_deposit, update_deposit, on_books,
}

abbrev pub confirm_key : String → String
confirm_key id = "deposit:" <> id <> ":confirm"

abbrev pub reverse_key : String → String
reverse_key id = "deposit:" <> id <> ":reverse"

abbrev pub IsReversed : String → Books → Type 0
IsReversed id b = (n : ℕ) × (find_transaction (reverse_key id) b.transactions ≡ some n)

-- What the ledger holds behind a row.
pub record IsBacked (b : Books) (d : Deposit) : Type 0 where
  pub posted :
      (t : ℕ)
      → d.ledger_transaction_id ≡ some t
      → find_transaction (confirm_key d.id) b.transactions ≡ some t
  pub credited : d.status ≡ confirmed → (t : ℕ) × (d.ledger_transaction_id ≡ some t)
  pub standing :
      (t : ℕ)
      → d.ledger_transaction_id ≡ some t
      → (d.status ≡ confirmed) ⊎ ((d.status ≡ orphaned) × IsReversed d.id b)

pub record IsSound (s : Vault) : Type 0 where
  pub valid : IsValid s.books
  pub backed : All (IsBacked s.books) s.deposits

IsBacked-Extends : {b c : Books} (d : Deposit) → Extends b c → IsBacked b d → IsBacked c d
IsBacked-Extends {b} {c} d x v = record {
  posted = λ t h. x.kept (confirm_key d.id) t (v.posted t h);
  credited = v.credited;
  standing = λ t h. elim (v.standing t h) [
    | inl e ↦ inl e
    | inr (e, (n, r)) ↦ inr (e, (n, x.kept (reverse_key d.id) n r))
  ];
}

All-Extends :
    {b c : Books} (ds : List Deposit) → Extends b c → All (IsBacked b) ds → All (IsBacked c) ds
All-Extends [] x v = tt
All-Extends (d ∷ ds) x v = (IsBacked-Extends d x v.0, All-Extends ds x v.1)

module _ (P : Deposit → Type 0) (id : String) where
  pub found-All :
      (ds : List Deposit) (d : Deposit) → All P ds → find_deposit id ds ≡ some d → P d × (d.id ≡ id)
  unfolding find_deposit
  found-All [] d v h = cc
  found-All (x ∷ ds) d v h = elim (Bool-cases (str_eq x.id id)) [
    | inl same ↦
        let e : some x ≡ some d = rw same at h in
        let p : x ≡ d = cc (e) in
        let q : x.id ≡ id = (str_eq_iff x.id id).0 same in rw (sym p) (v.0, q)
    | inr apart ↦ found-All ds d v.1 (rw apart at h)
  ]

  module _ (f : Deposit → Deposit) where
    pub update_found-All :
        (ds : List Deposit) (d : Deposit)
        → All P ds
        → find_deposit id ds ≡ some d
        → P (f d)
        → All P (update_deposit id f ds)
    unfolding find_deposit update_deposit
    update_found-All [] d v h p = tt
    update_found-All (x ∷ ds) d v h p = elim (Bool-cases (str_eq x.id id)) [
      | inl same ↦
          let e : some x ≡ some d = rw same at h in
          let q : d ≡ x = cc (e) in rw same (subst (λ y. P (f y)) q p, v.1)
      | inr apart ↦ rw apart (v.0, update_found-All ds d v.1 (rw apart at h) p)
    ]

    pub update-All :
        (ds : List Deposit)
        → ((x : Deposit) → x.id ≡ id → P x → P (f x))
        → All P ds
        → All P (update_deposit id f ds)
    unfolding update_deposit
    update-All [] k v = tt
    update-All (x ∷ ds) k v = elim (Bool-cases (str_eq x.id id)) [
      | inl same ↦ rw same (k x ((str_eq_iff x.id id).0 same) v.0, v.1)
      | inr apart ↦ rw apart (v.0, update-All ds k v.1)
    ]

-- The books move on, and lose nothing that was posted.
pub moved_on :
    (s : Vault) (c : Books)
    → IsSound s
    → IsValid c
    → Extends s.books c
    → IsSound (record s { books = c })
moved_on s c v u x = record { valid = u; backed = All-Extends s.deposits x v.backed }

-- A call of the ledger that ends as its methods do, under honest others.
pub on_books-IsSound :
    {A : Type 0} (w : Weather) (honest : IsHonest w) (s : Vault) (v : IsSound s) (key : String)
    (id_of : A → ℕ) (r : Result A × Books)
    → Final w s.books key id_of r
    → IsSound (on_books r s).1
on_books-IsSound w honest s v key id_of (ok a, b) g = moved_on s b v g.valid g.extends
on_books-IsSound w honest s v key id_of (err e, b) t =
    let d = drifted w honest s.books v.valid t in moved_on s b v d.valid d.extends
