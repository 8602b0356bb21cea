-- ===== src/Ledger/Carries.antt =====
-- Entries that are pushed only under a test (a fee, a settled amount, a remainder): whichever were
-- pushed, they carry the same legs, a leg of zero included.
use tenzopay.Base.{
  ℕ, ◌≤◌, ℤ, pos, ◌+ℤ◌, neg_ℤ, ◌≤ℤ◌, ◌<ℤ◌, ltb_ℤ, int_laws, zero-+ℤ, String, some, none,
  if◌then◌else◌, List, [], ◌∷◌, ◌++◌, length, All, Bool-cases, inl, inr, ◌≡◌, refl, ◌∙◌, sym, ap,
  ap₂, subst, Bool, true, false, arith,
}
use tenzopay.Ledger.Books.{
  AccountKey, key_eq, debit, credit, LedgerAccount, EntryInput, LedgerTransactionType, Books,
  find_account, find_transaction,
}
use tenzopay.Ledger.Posting.{post}
use tenzopay.Ledger.Movements.{entry, settled_entries, remainder_entries}
use tenzopay.Ledger.Invariant.{sum_signed, IsBalanced}
use tenzopay.Ledger.View.{balance_at, Legs, effect, Posts}
use tenzopay.Ledger.Moved.{Opened, Posted, post-Posted}

abbrev pub total_of : Legs → ℤ
total_of [] = pos 0
total_of ((k, x) ∷ rest) = x +ℤ total_of rest

pub record Carries (accounts : List LedgerAccount) (es : List EntryInput) (legs : Legs)
    : Type 0 where
  pub pushed : Legs
  pub posts : Posts accounts es pushed
  pub same : (k : AccountKey) → effect pushed k ≡ effect legs k
  pub positive : All (λ e. pos 0 <ℤ e.amount) es
  pub sum : sum_signed es ≡ total_of legs

pub effect-append :
    (ls ms : Legs) (k : AccountKey) → effect (ls ++ ms) k ≡ effect ls k +ℤ effect ms k
effect-append [] ms k = sym (zero-+ℤ (effect ms k))
effect-append ((j, x) ∷ ls) ms k = rw (effect-append ls ms k) (omega int_laws)

total_of-append : (ls ms : Legs) → total_of (ls ++ ms) ≡ total_of ls +ℤ total_of ms
total_of-append [] ms = sym (zero-+ℤ (total_of ms))
total_of-append ((j, x) ∷ ls) ms = rw (total_of-append ls ms) (omega int_laws)

pub sum_signed-append :
    (es fs : List EntryInput) → sum_signed (es ++ fs) ≡ sum_signed es +ℤ sum_signed fs
sum_signed-append [] fs = sym (zero-+ℤ (sum_signed fs))
sum_signed-append (e ∷ es) fs = rw (sum_signed-append es fs) (omega int_laws)

positive-append :
    (es fs : List EntryInput)
    → All (λ e. pos 0 <ℤ e.amount) es
    → All (λ e. pos 0 <ℤ e.amount) fs
    → All (λ e. pos 0 <ℤ e.amount) (es ++ fs)
positive-append [] fs p q = q
positive-append (e ∷ es) fs p q = (p.0, positive-append es fs p.1 q)

short : (x : ℤ) → ltb_ℤ x (pos 0) ≡ true → pos 0 <ℤ neg_ℤ x
unfolding neg_ℤ
short x t = ground arith

zero_leg : (b : Bool) (x : ℤ) → x ≡ pos 0 → pos 0 ≡ (if b then x else pos 0) +ℤ pos 0
zero_leg true x z = rw z (omega int_laws)
zero_leg false x z = omega int_laws

neg_neg : (x : ℤ) → neg_ℤ (neg_ℤ x) ≡ x
neg_neg x = omega int_laws

module _ (accounts : List LedgerAccount) where
  Posts-append :
      (es fs : List EntryInput) (ls ms : Legs)
      → Posts accounts es ls
      → Posts accounts fs ms
      → Posts accounts (es ++ fs) (ls ++ ms)
  Posts-append [] fs [] ms p q = q
  Posts-append [] fs (l ∷ ls) ms p q = absurd p
  Posts-append (e ∷ es) fs [] ms p q = absurd p
  Posts-append (e ∷ es) fs (l ∷ ls) ms p q = (p.0, p.1, Posts-append es fs ls ms p.2 q)

  pub Carries-append :
      {es fs : List EntryInput} {ls ms : Legs}
      → Carries accounts es ls
      → Carries accounts fs ms
      → Carries accounts (es ++ fs) (ls ++ ms)
  Carries-append {es} {fs} {ls} {ms} c d = record {
    pushed = c.pushed ++ d.pushed;
    posts = Posts-append es fs c.pushed d.pushed c.posts d.posts;
    same = λ k. simp effect-append (ap₂ (λ x y. x +ℤ y) (c.same k) (d.same k));
    positive = positive-append es fs c.positive d.positive;
    sum = simp (sum_signed-append, total_of-append) (ap₂ (λ x y. x +ℤ y) c.sum d.sum);
  }

  module _ (k : AccountKey) (x : ℤ) where
    -- No entry carries a leg of zero.
    pub Carries-none : x ≡ pos 0 → Carries accounts [] ((k, x) ∷ [])
    Carries-none z = record {
      pushed = [];
      posts = tt;
      same = λ j. zero_leg (key_eq k j) x z;
      positive = tt;
      sum = rw z (omega int_laws);
    }

    pub Carries-credit :
        (i : ℕ) (currency : String)
        → find_account k accounts ≡ some i
        → pos 0 <ℤ x
        → Carries accounts (entry i credit x currency ∷ []) ((k, x) ∷ [])
    Carries-credit i currency f p = record {
      pushed = (k, x) ∷ [];
      posts = (f, refl, tt);
      same = λ j. refl;
      positive = (p, tt);
      sum = refl;
    }

    pub Carries-debit :
        (i : ℕ) (currency : String)
        → find_account k accounts ≡ some i
        → pos 0 <ℤ x
        → Carries accounts (entry i debit x currency ∷ []) ((k, neg_ℤ x) ∷ [])
    Carries-debit i currency f p = record {
      pushed = (k, neg_ℤ x) ∷ [];
      posts = (f, refl, tt);
      same = λ j. refl;
      positive = (p, tt);
      sum = refl;
    }

    pub Carries-settled :
        (i : ℕ) (currency : String)
        → find_account k accounts ≡ some i
        → pos 0 ≤ℤ x
        → Carries accounts (settled_entries i x currency) ((k, x) ∷ [])
    Carries-settled i currency f p = elim (Bool-cases (ltb_ℤ (pos 0) x)) [
      | inl t ↦ rw t (Carries-credit i currency f (ground arith))
      | inr t ↦ rw t (Carries-none (ground arith))
    ]

  module _ (k : AccountKey) (x : ℤ) where
    pub Carries-remainder :
        (i : ℕ) (currency : String)
        → find_account k accounts ≡ some i
        → Carries accounts (remainder_entries i x currency) ((k, x) ∷ [])
    Carries-remainder i currency f = elim (Bool-cases (ltb_ℤ x (pos 0))) [
      | inl t ↦ rw t (
          subst (λ y. Carries accounts (entry i debit (neg_ℤ x) currency ∷ []) ((k, y) ∷ []))
            (neg_neg x) (Carries-debit k (neg_ℤ x) i currency f (short x t)))
      | inr t ↦ rw t (Carries-settled k x i currency f (ground arith))
    ]

nonempty_of_sum : (es : List EntryInput) → pos 0 <ℤ sum_signed es → 1 ≤ length es
nonempty_of_sum [] p = absurd (omega arith)
nonempty_of_sum (e ∷ es) p = omega arith

-- A debit of a positive amount, and entries that carry the same amount back, are balanced.
pub debit-IsBalanced :
    (i : ℕ) (amount : ℤ) (currency : String) (es : List EntryInput)
    → pos 0 <ℤ amount
    → All (λ e. pos 0 <ℤ e.amount) es
    → sum_signed es ≡ amount
    → IsBalanced (entry i debit amount currency ∷ es)
debit-IsBalanced i amount currency es p positive s = record {
  two_entries = let some_entry : 1 ≤ length es = nonempty_of_sum es (rw s p) in omega arith;
  positive = (p, positive);
  zero_sum = rw s (omega int_laws);
}

-- Balanced entries that carry the legs, posted behind the opening of accounts.
pub post_carried :
    {b c : Books} (ty : LedgerTransactionType) (key : String) (es : List EntryInput) (legs : Legs)
    → Opened b c
    → IsBalanced es
    → Carries c.accounts es legs
    → find_transaction key b.transactions ≡ none
    → Posted b key legs [] (post ty key es c)
post_carried {b} ty key es legs o balanced c fresh =
    let (b', e, m) = post-Posted ty key es c.pushed o balanced c.posts fresh in
    (
      b',
      e,
      record {
        valid = m.valid;
        balances = λ k. m.balances k ∙ ap (λ x. x +ℤ balance_at k b) (c.same k);
        posted = m.posted;
        one_more = m.one_more;
        fees = m.fees;
      },
    )

-- Two entries or more that carry legs of sum zero are balanced.
pub Carries-IsBalanced :
    {accounts : List LedgerAccount} {es : List EntryInput} {legs : Legs}
    → Carries accounts es legs
    → 2 ≤ length es
    → total_of legs ≡ pos 0
    → IsBalanced es
Carries-IsBalanced c two z = record {
  two_entries = two;
  positive = c.positive;
  zero_sum = c.sum ∙ z;
}
