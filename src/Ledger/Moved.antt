-- ===== src/Ledger/Moved.antt =====
-- What one posting does to the tables, and the rule for a pair of legs.
use tenzopay.Base.{
  ℕ, suc, ◌<◌, ℤ, pos, ◌+ℤ◌, ◌<ℤ◌, int_laws, String, str_eq_iff, none, some, false, List, [], ◌∷◌,
  ◌++◌, length, All, ◌≡◌, refl, ◌∙◌, ap, subst, arith,
}
use tenzopay.Effects.{Result, ok}
use tenzopay.Ledger.Books.{
  AccountKey, debit, credit, LedgerAccount, EntryInput, LedgerTransactionType, FeeRow, Books,
  find_transaction, create_transaction, has_fee, create_fee,
}
use tenzopay.Ledger.Posting.{post, post_checked}
use tenzopay.Ledger.Balances.{get_account_balance}
use tenzopay.Ledger.Movements.{entry}
use tenzopay.Ledger.Invariant.{
  AccountsValid, IsBalanced, IsValid, FeesValid-mono, has_fee-fresh, find_account-lt,
}
use tenzopay.Ledger.View.{balance_at, Legs, effect, Posts, balance_at-create}
use tenzopay.Ledger.Ensure.{
  ensured, ensured-IsValid, balance_at-ensured, transactions-ensured, fees-ensured,
}
use tenzopay.Ledger.Check.{assert_balanced_iff}

-- One new transaction under the key, whose legs are all that moved the balances, and the new fee rows.
pub record Moved (b : Books) (key : String) (legs : Legs) (rows : List FeeRow) (id : ℕ) (b' : Books)
    : Type 0 where
  pub valid : IsValid b'
  pub balances : (k : AccountKey) → balance_at k b' ≡ effect legs k +ℤ balance_at k b
  pub posted : find_transaction key b'.transactions ≡ some id
  pub one_more : length b'.transactions ≡ suc (length b.transactions)
  pub fees : b'.fees ≡ rows ++ b.fees

-- Accounts were opened, and nothing else happened.
pub record Opened (b b' : Books) : Type 0 where
  pub valid : IsValid b'
  pub balances : (k : AccountKey) → balance_at k b' ≡ balance_at k b
  pub transactions : b'.transactions ≡ b.transactions
  pub fees : b'.fees ≡ b.fees

pub Opened-refl : {b : Books} → IsValid b → Opened b b
Opened-refl v = record { valid = v; balances = λ k. refl; transactions = refl; fees = refl }

pub Opened-ensured : {b c : Books} (k : AccountKey) → Opened b c → Opened b (ensured k c)
Opened-ensured {b} {c} k o = record {
  valid = ensured-IsValid k c o.valid;
  balances = λ j. balance_at-ensured k c j o.valid ∙ o.balances j;
  transactions = transactions-ensured k c ∙ o.transactions;
  fees = fees-ensured k c ∙ o.fees;
}

Posts-lt :
    (accounts : List LedgerAccount) (es : List EntryInput) (legs : Legs)
    → AccountsValid accounts
    → Posts accounts es legs
    → All (λ e. e.account_id < length accounts) es
Posts-lt accounts [] [] v p = tt
Posts-lt accounts [] (l ∷ ls) v p = absurd p
Posts-lt accounts (e ∷ es) [] v p = absurd p
Posts-lt accounts (e ∷ es) ((j, x) ∷ ls) v p =
    (find_account-lt j accounts e.account_id v p.0, Posts-lt accounts es ls v p.2)

module _ (ty : LedgerTransactionType) (key : String) (es : List EntryInput) (c : Books) where
  -- Balanced entries under a new key are written.
  pub post_new :
      IsBalanced es
      → find_transaction key c.transactions ≡ none
      → post ty key es c ≡ (ok (length c.transactions), create_transaction ty key es c)
  unfolding post post_checked
  post_new balanced fresh = ground (arith, (assert_balanced_iff es).1 balanced)

  pub create-Moved :
      (legs : Legs)
      → IsValid c
      → IsBalanced es
      → Posts c.accounts es legs
      → find_transaction key c.transactions ≡ none
      → Moved c key legs [] (length c.transactions) (create_transaction ty key es c)
  unfolding create_transaction find_transaction
  create-Moved legs v balanced p fresh = record {
    valid = record {
      accounts = v.accounts;
      transactions =
          (refl, fresh, balanced, Posts-lt c.accounts es legs v.accounts p, v.transactions);
      fees = FeesValid-mono _ _ c.fees (omega arith) v.fees;
    };
    balances = λ k. balance_at-create k ty key es legs c v p;
    posted = ground (arith, str_eq_iff key key);
    one_more = refl;
    fees = refl;
  }

pub Moved-Opened :
    {b c d : Books} {key : String} {legs : Legs} {rows : List FeeRow} {id : ℕ}
    → Opened b c
    → Moved c key legs rows id d
    → Moved b key legs rows id d
Moved-Opened {legs} {rows} o m = record {
  valid = m.valid;
  balances = λ k. m.balances k ∙ ap (λ x. effect legs k +ℤ x) (o.balances k);
  posted = m.posted;
  one_more = m.one_more ∙ ap (λ ts. suc (length ts)) o.transactions;
  fees = m.fees ∙ ap (λ fs. rows ++ fs) o.fees;
}

-- What a method that posts has done: it returns the number of the new transaction.
abbrev pub Posted : Books → String → Legs → List FeeRow → Result ℕ × Books → Type 0
Posted b key legs rows r =
    (b' : Books) × (r ≡ (ok (length b.transactions), b'))
    × Moved b key legs rows (length b.transactions) b'

-- Entries with legs, posted behind the opening of accounts.
pub post-Posted :
    {b c : Books} (ty : LedgerTransactionType) (key : String) (es : List EntryInput) (legs : Legs)
    → Opened b c
    → IsBalanced es
    → Posts c.accounts es legs
    → find_transaction key b.transactions ≡ none
    → Posted b key legs [] (post ty key es c)
post-Posted {b} {c} ty key es legs o balanced p fresh =
    let c' = create_transaction ty key es c in
    let same_count : length c.transactions ≡ length b.transactions = ap length o.transactions in
    let new : find_transaction key c.transactions ≡ none = rw o.transactions fresh in
    (
      c',
      post_new ty key es c balanced new ∙ ap (λ n. (ok n, c')) same_count,
      subst (λ n. Moved b key legs [] n c') same_count
          (Moved-Opened o (create-Moved ty key es c legs o.valid balanced p new)),
    )

-- A debit and a credit of one positive amount are balanced.
pub pair-IsBalanced :
    (i h : ℕ) (amount : ℤ) (currency : String)
    → pos 0 <ℤ amount
    → IsBalanced (entry i debit amount currency ∷ entry h credit amount currency ∷ [])
pair-IsBalanced i h amount currency p = record {
  two_entries = omega arith;
  positive = (p, (p, tt));
  zero_sum = omega int_laws;
}

-- The fee row of a posting that has just been made goes in, and is its only one.
module _ (row : FeeRow) {b b' : Books} {key : String} {legs : Legs} where
  pub create_fee-Moved :
      IsValid b
      → pos 0 <ℤ row.amount
      → row.ledger_transaction_id ≡ length b.transactions
      → Moved b key legs [] (length b.transactions) b'
      → (b'' : Books) × (create_fee row b' ≡ (ok tt, b''))
        × Moved b key legs (row ∷ []) (length b.transactions) b''
  unfolding create_fee get_account_balance
  create_fee-Moved v p here m =
      let new : has_fee row.ledger_transaction_id b'.fees ≡ false =
        rw (here, m.fees)
          (has_fee-fresh (length b.transactions) (length b.transactions) b.fees (omega arith)
            v.fees) in
      (
        record b' { fees = row ∷ b'.fees },
        rw new,
        record {
          valid = record {
            accounts = m.valid.accounts;
            transactions = m.valid.transactions;
            fees = (omega arith, p, new, m.valid.fees);
          };
          balances = m.balances;
          posted = m.posted;
          one_more = m.one_more;
          fees = ap (λ fs. row ∷ fs) m.fees;
        },
      )
