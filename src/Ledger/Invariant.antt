-- ===== src/Ledger/Invariant.antt =====
-- The invariant of the ledger's tables, I1, I3 and I4 of apps/api/src/ledger/ledger.service.ts among
-- it, and what it says of the lookups.
use tenzopay.Base.{
  ℕ, ◌≤◌, ◌<◌, ℤ, pos, ◌+ℤ◌, ◌<ℤ◌, String, none, some, false, List, [], ◌∷◌, length, All, ◌≡◌, refl,
  arith,
}
use tenzopay.Ledger.Books.{
  AccountKey, key_eq_iff, LedgerAccount, EntryInput, LedgerTransaction, FeeRow, Books, find_account,
  find_transaction, has_fee,
}
use tenzopay.Ledger.Posting.{signed}

abbrev pub sum_signed : List EntryInput → ℤ
sum_signed [] = pos 0
sum_signed (e ∷ rest) = signed e +ℤ sum_signed rest

-- I1 and I3: two entries or more, positive amounts, and a sum of zero.
pub record IsBalanced (entries : List EntryInput) : Type 0 where
  pub two_entries : 2 ≤ length entries
  pub positive : All (λ e. pos 0 <ℤ e.amount) entries
  pub zero_sum : sum_signed entries ≡ pos 0

-- One account for each kind, user and currency, and ids that are the rows' numbers.
abbrev pub AccountsValid : List LedgerAccount → Type 0
AccountsValid [] = Unit
AccountsValid (a ∷ rest) =
    (a.id ≡ length rest) × (find_account a.key rest ≡ none) × AccountsValid rest

-- Each transaction is balanced, names known accounts, and has a key of its own (I4).
abbrev pub TransactionsValid : ℕ → List LedgerTransaction → Type 0
TransactionsValid n [] = Unit
TransactionsValid n (t ∷ rest) =
    (t.id ≡ length rest)
    × (find_transaction t.idempotency_key rest ≡ none)
    × IsBalanced t.entries
    × All (λ e. e.account_id < n) t.entries
    × TransactionsValid n rest

-- A fee has its posting, a positive amount, and is the only fee of that posting.
abbrev pub FeesValid : ℕ → List FeeRow → Type 0
FeesValid n [] = Unit
FeesValid n (f ∷ rest) =
    (f.ledger_transaction_id < n)
    × (pos 0 <ℤ f.amount)
    × (has_fee f.ledger_transaction_id rest ≡ false)
    × FeesValid n rest

pub record IsValid (b : Books) : Type 0 where
  pub accounts : AccountsValid b.accounts
  pub transactions : TransactionsValid (length b.accounts) b.transactions
  pub fees : FeesValid (length b.transactions) b.fees

pub find_account-lt :
    (k : AccountKey) (accts : List LedgerAccount) (i : ℕ)
    → AccountsValid accts
    → find_account k accts ≡ some i
    → i < length accts
unfolding find_account
find_account-lt k [] i v h = cc
find_account-lt k (a ∷ rest) i v h = ground (arith, find_account-lt k rest i v.2)

pub find_account_inj :
    (j k : AccountKey) (accts : List LedgerAccount) (i : ℕ)
    → AccountsValid accts
    → find_account j accts ≡ some i
    → find_account k accts ≡ some i
    → j ≡ k
unfolding find_account
find_account_inj j k [] i v h h' = cc
find_account_inj j k (a ∷ rest) i v h h' = ground (
  arith,
  key_eq_iff a.key j,
  key_eq_iff a.key k,
  find_account_inj j k rest i v.2,
  find_account-lt j rest i v.2,
  find_account-lt k rest i v.2,
)

pub find_transaction-lt :
    (k : String) (n : ℕ) (ts : List LedgerTransaction) (i : ℕ)
    → TransactionsValid n ts
    → find_transaction k ts ≡ some i
    → i < length ts
unfolding find_transaction
find_transaction-lt k n [] i v h = cc
find_transaction-lt k n (t ∷ rest) i v h = ground (arith, find_transaction-lt k n rest i v.4)

All-lt_mono :
    (n m : ℕ) (es : List EntryInput)
    → n ≤ m
    → All (λ e. e.account_id < n) es
    → All (λ e. e.account_id < m) es
All-lt_mono n m [] h a = tt
All-lt_mono n m (e ∷ es) h a = (omega arith, All-lt_mono n m es h a.1)

pub TransactionsValid-mono :
    (n m : ℕ) (ts : List LedgerTransaction)
    → n ≤ m
    → TransactionsValid n ts
    → TransactionsValid m ts
TransactionsValid-mono n m [] h v = tt
TransactionsValid-mono n m (t ∷ rest) h v =
    (v.0, v.1, v.2, All-lt_mono n m t.entries h v.3, TransactionsValid-mono n m rest h v.4)

pub FeesValid-mono : (n m : ℕ) (fs : List FeeRow) → n ≤ m → FeesValid n fs → FeesValid m fs
FeesValid-mono n m [] h v = tt
FeesValid-mono n m (f ∷ rest) h v = (omega arith, v.1, v.2, FeesValid-mono n m rest h v.3)

-- The rows have ids below the number of rows, so the next id is fresh.
pub has_fee-fresh : (n i : ℕ) (fs : List FeeRow) → n ≤ i → FeesValid n fs → has_fee i fs ≡ false
unfolding has_fee
has_fee-fresh n i [] h v = refl
has_fee-fresh n i (f ∷ rest) h v = ground (arith, has_fee-fresh n i rest h v.3)
