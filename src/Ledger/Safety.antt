-- ===== src/Ledger/Safety.antt =====
-- Whatever its arguments, a transaction body that succeeds has kept the invariant, has undone nothing
-- that was posted, and has its key posted under the id that it returns.
use tenzopay.Base.{
  ℕ, ◌<◌, pos, ◌<ℤ◌, String, str_eq_iff, none, some, Option-cases, true, false, Bool-cases, inl,
  inr, List, ◌∷◌, length, All, ◌≡◌, refl, arith,
}
use tenzopay.Effects.{Thrown, Result, ok, err, Result-cases, Action, continue}
use tenzopay.Ledger.Books.{
  EntryInput, LedgerTransactionType, FeeRow, Books, find_transaction, create_transaction, has_fee,
  unique_violation, create_fee,
}
use tenzopay.Ledger.Posting.{assert_balanced, post, post_checked}
use tenzopay.Ledger.Invariant.{IsBalanced, IsValid, FeesValid-mono, find_transaction-lt}
use tenzopay.Ledger.Check.{assert_balanced_iff}

-- Nothing that was posted is gone or changed its id.
pub record Extends (b b' : Books) : Type 0 where
  pub kept :
      (key : String) (id : ℕ)
      → find_transaction key b.transactions ≡ some id
      → find_transaction key b'.transactions ≡ some id

pub Extends-refl : (b : Books) → Extends b b
Extends-refl b = record { kept = λ key id h. h }

pub Extends-trans : {b c d : Books} → Extends b c → Extends c d → Extends b d
Extends-trans x y = record { kept = λ key id h. y.kept key id (x.kept key id h) }

pub record Good (b : Books) (key : String) (id : ℕ) (b' : Books) : Type 0 where
  pub valid : IsValid b'
  pub extends : Extends b b'
  pub posted : find_transaction key b'.transactions ≡ some id

-- What is known of a body by how it ended: after a throw the transaction undoes its writes.
abbrev pub Keeps : {A : Type 0} → Books → String → (A → ℕ) → Result A × Books → Type 0
Keeps b key id_of (ok a, b') = Good b key (id_of a) b'
Keeps b key id_of (err e, b') = Unit

module _ (ty : LedgerTransactionType) (key : String) (es : List EntryInput) where
  created-Extends :
      (c : Books)
      → find_transaction key c.transactions ≡ none
      → Extends c (create_transaction ty key es c)
  unfolding create_transaction find_transaction
  created-Extends c fresh = record { kept = λ j id h. ground (arith, str_eq_iff key j) }

  created-Good :
      (c : Books)
      → IsValid c
      → IsBalanced es
      → All (λ e. e.account_id < length c.accounts) es
      → find_transaction key c.transactions ≡ none
      → Good c key (length c.transactions) (create_transaction ty key es c)
  created-Good c v balanced known fresh = record {
    valid =
        unfold create_transaction in
        record {
          accounts = v.accounts;
          transactions = (refl, fresh, balanced, known, v.transactions);
          fees = FeesValid-mono _ _ c.fees (omega arith) v.fees;
        };
    extends = created-Extends c fresh;
    posted = unfold create_transaction find_transaction in ground (arith, str_eq_iff key key);
  }

  module _ (c : Books) where
    post_refused : {e : Thrown} → assert_balanced es ≡ err e → post ty key es c ≡ (err e, c)
    unfolding post
    post_refused h = ground arith

    post_known :
        {id : ℕ}
        → assert_balanced es ≡ ok tt
        → find_transaction key c.transactions ≡ some id
        → post ty key es c ≡ (ok id, c)
    unfolding post post_checked
    post_known h f = ground arith

    post_created :
        assert_balanced es ≡ ok tt
        → find_transaction key c.transactions ≡ none
        → post ty key es c ≡ (ok (length c.transactions), create_transaction ty key es c)
    unfolding post post_checked
    post_created h f = ground arith

    -- `post`, on every branch.
    pub post-Keeps :
        IsValid c
        → All (λ e. e.account_id < length c.accounts) es
        → Keeps c key (λ id. id) (post ty key es c)
    post-Keeps v known = elim (Result-cases (assert_balanced es)) [
      | inr (e, refused) ↦ rw (post_refused refused) tt
      | inl (u, accepted) ↦ elim (Option-cases (find_transaction key c.transactions)) [
        | inl fresh ↦
            rw (post_created accepted fresh)
              (created-Good c v ((assert_balanced_iff es).0 accepted) known fresh)
        | inr (old, found) ↦
            rw (post_known accepted found)
              (record { valid = v; extends = Extends-refl c; posted = found })
      ]
    ]

-- The next step of a body, which runs only if the one before returned.
pub Keeps-then :
    {A B : Type 0} {b : Books} {key : String} (id_of : A → ℕ) (id_of' : B → ℕ)
    (f : A → Action Books B) (r : Result A × Books)
    → Keeps b key id_of r
    → ((a : A) (b' : Books) → Good b key (id_of a) b' → Keeps b key id_of' (f a b'))
    → Keeps b key id_of' (continue f r)
Keeps-then id_of id_of' f (ok a, b') k step = step a b' k
Keeps-then id_of id_of' f (err e, b') k step = tt

-- The fee row of a posting, on every branch.
module _ (row : FeeRow) (b' : Books) where
  create_fee_old :
      has_fee row.ledger_transaction_id b'.fees ≡ true
      → create_fee row b' ≡ (err unique_violation, b')
  unfolding create_fee
  create_fee_old h = rw h

  create_fee_new :
      has_fee row.ledger_transaction_id b'.fees ≡ false
      → create_fee row b' ≡ (ok tt, record b' { fees = row ∷ b'.fees })
  unfolding create_fee
  create_fee_new h = rw h

pub create_fee-Keeps :
    (row : FeeRow) {b b' : Books} {key : String} (id : ℕ)
    → pos 0 <ℤ row.amount
    → row.ledger_transaction_id ≡ id
    → Good b key id b'
    → Keeps b key (λ _. id) (create_fee row b')
create_fee-Keeps row {b} {b'} {key} id p here g =
    elim (Bool-cases (has_fee row.ledger_transaction_id b'.fees)) [
      | inl old ↦ rw (create_fee_old row b' old) tt
      | inr new ↦ rw (create_fee_new row b' new) (record {
        valid = record {
          accounts = g.valid.accounts;
          transactions = g.valid.transactions;
          fees = (
            rw here (find_transaction-lt key _ b'.transactions id g.valid.transactions g.posted),
            p,
            new,
            g.valid.fees,
          );
        };
        extends = record { kept = g.extends.kept };
        posted = g.posted;
      })
    ]
