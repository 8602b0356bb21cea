-- ===== src/Ledger/Conservation.antt =====
-- Money is conserved: the sum of all balances (I1 of apps/api/src/ledger/ledger.service.ts).
use tenzopay.Base.{
  ℕ, ◌<◌, ℤ, pos, ◌+ℤ◌, int_laws, zero-+ℤ, ltb, if◌then◌else◌, ◌==◌, List, [], ◌∷◌, ◌++◌, length,
  All, ◌≡◌, refl, ◌∙◌, ap₂, +ℤ-zero, arith,
}
use tenzopay.Ledger.Books.{LedgerAccount, EntryInput, LedgerTransaction, Books}
use tenzopay.Ledger.Posting.{signed}
use tenzopay.Ledger.Balances.{ledger_entries, get_account_balance}
use tenzopay.Ledger.Invariant.{AccountsValid, TransactionsValid, IsValid, sum_signed}
use tenzopay.Ledger.Carries.{sum_signed-append}
use tenzopay.Ledger.View.{net, balance-eq-net}

-- The balances of all accounts of the table.
abbrev pub total_balance : Books → List LedgerAccount → ℤ
total_balance b [] = pos 0
total_balance b (a ∷ rest) = get_account_balance a.id b +ℤ total_balance b rest

abbrev share : List LedgerAccount → EntryInput → ℤ
share [] e = pos 0
share (a ∷ rest) e = (if e.account_id == a.id then signed e else pos 0) +ℤ share rest e

abbrev total_net : List LedgerAccount → List EntryInput → ℤ
total_net [] es = pos 0
total_net (a ∷ rest) es = net a.id es +ℤ total_net rest es

total_balance-eq-net :
    (b : Books) (accounts : List LedgerAccount)
    → total_balance b accounts ≡ total_net accounts (ledger_entries b.transactions)
total_balance-eq-net b [] = refl
total_balance-eq-net b (a ∷ rest) =
    ap₂ (λ x y. x +ℤ y) (balance-eq-net a.id b) (total_balance-eq-net b rest)

total_net-nil : (accounts : List LedgerAccount) → total_net accounts [] ≡ pos 0
total_net-nil [] = refl
total_net-nil (a ∷ rest) = rw (total_net-nil rest) (omega int_laws)

total_net-cons :
    (accounts : List LedgerAccount) (e : EntryInput) (es : List EntryInput)
    → total_net accounts (e ∷ es) ≡ share accounts e +ℤ total_net accounts es
total_net-cons [] e es = omega int_laws
total_net-cons (a ∷ rest) e es = rw (total_net-cons rest e es) (omega int_laws)

share_known :
    (accounts : List LedgerAccount) (e : EntryInput)
    → AccountsValid accounts
    → share accounts e ≡ (if ltb e.account_id (length accounts) then signed e else pos 0)
share_known [] e v = ground arith
share_known (a ∷ rest) e v =
    ground (arith, share_known rest e v.2, zero-+ℤ (share rest e), +ℤ-zero (signed e))

total_net-eq-sum :
    (accounts : List LedgerAccount) (es : List EntryInput)
    → AccountsValid accounts
    → All (λ e. e.account_id < length accounts) es
    → total_net accounts es ≡ sum_signed es
total_net-eq-sum accounts [] v h = total_net-nil accounts
total_net-eq-sum accounts (e ∷ es) v h =
    total_net-cons accounts e es
    ∙ ap₂ (λ x y. x +ℤ y) (ground (arith, share_known accounts e v, h.0))
        (total_net-eq-sum accounts es v h.1)

All-append :
    (n : ℕ) (es fs : List EntryInput)
    → All (λ e. e.account_id < n) es
    → All (λ e. e.account_id < n) fs
    → All (λ e. e.account_id < n) (es ++ fs)
All-append n [] fs p q = q
All-append n (e ∷ es) fs p q = (p.0, All-append n es fs p.1 q)

entries_known :
    (n : ℕ) (ts : List LedgerTransaction)
    → TransactionsValid n ts
    → All (λ e. e.account_id < n) (ledger_entries ts)
unfolding ledger_entries
entries_known n [] v = tt
entries_known n (t ∷ rest) v =
    All-append n t.entries (ledger_entries rest) v.3 (entries_known n rest v.4)

entries_cancel :
    (n : ℕ) (ts : List LedgerTransaction)
    → TransactionsValid n ts
    → sum_signed (ledger_entries ts) ≡ pos 0
unfolding ledger_entries
entries_cancel n [] v = refl
entries_cancel n (t ∷ rest) v =
    rw (sum_signed-append t.entries (ledger_entries rest), v.2.zero_sum, entries_cancel n rest v.4)
      (omega int_laws)

-- Money is neither made nor lost: the balances of all accounts of valid books sum to zero.
pub total_balance-eq-zero : (b : Books) → IsValid b → total_balance b b.accounts ≡ pos 0
total_balance-eq-zero b v =
    total_balance-eq-net b b.accounts
    ∙ total_net-eq-sum b.accounts (ledger_entries b.transactions) v.accounts
        (entries_known _ b.transactions v.transactions)
    ∙ entries_cancel _ b.transactions v.transactions
