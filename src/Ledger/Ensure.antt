-- ===== src/Ledger/Ensure.antt =====
-- `ensureAccount`: it never fails, opens at most one account, and moves no balance.
use tenzopay.Base.{
  ℕ, ◌<◌, pos, int_laws, none, some, Option-cases, inl, inr, List, [], ◌∷◌, length, All, ◌≡◌, refl,
  arith,
}
use tenzopay.Effects.{ok}
use tenzopay.Ledger.Books.{
  AccountKey, key_eq_iff, EntryInput, LedgerTransaction, Books, find_account, create_account,
}
use tenzopay.Ledger.Posting.{ensure_account}
use tenzopay.Ledger.Balances.{ledger_entries, get_account_balance}
use tenzopay.Ledger.Invariant.{TransactionsValid, IsValid, TransactionsValid-mono}
use tenzopay.Ledger.View.{net, net-append, balance-eq-net, balance_at}

-- The id that `ensure_account` returns, and the tables that it leaves.
unfoldable pub ensured_id : AccountKey → Books → ℕ
ensured_id k b = elim (find_account k b.accounts) [ some id ↦ id | none ↦ length b.accounts ]

unfoldable pub ensured : AccountKey → Books → Books
ensured k b = elim (find_account k b.accounts) [ some id ↦ b | none ↦ create_account k b ]

pub ensure_account_lem :
    (k : AccountKey) (b : Books) → ensure_account k b ≡ (ok (ensured_id k b), ensured k b)
unfolding ensure_account ensured_id ensured
ensure_account_lem k b = ground arith

net-fresh : (n : ℕ) (es : List EntryInput) → All (λ e. e.account_id < n) es → net n es ≡ pos 0
net-fresh n [] h = refl
net-fresh n (e ∷ es) h = grind (int_laws, net-fresh n es h.1)

net-fresh_entries :
    (n : ℕ) (ts : List LedgerTransaction)
    → TransactionsValid n ts
    → net n (ledger_entries ts) ≡ pos 0
unfolding ledger_entries
net-fresh_entries n [] v = refl
net-fresh_entries n (t ∷ ts) v =
    rw
      (
        net-append n t.entries (ledger_entries ts),
        net-fresh n t.entries v.3,
        net-fresh_entries n ts v.4,
      )
      (omega int_laws)

module _ (k : AccountKey) (b : Books) where
  pub find-ensured_self : find_account k (ensured k b).accounts ≡ some (ensured_id k b)
  unfolding ensured ensured_id create_account find_account
  find-ensured_self = ground (arith, key_eq_iff k k)

  pub find-ensured_kept :
      (j : AccountKey) (i : ℕ)
      → find_account j b.accounts ≡ some i
      → find_account j (ensured k b).accounts ≡ some i
  unfolding ensured create_account find_account
  find-ensured_kept j i h = ground (arith, key_eq_iff k j)

  pub transactions-ensured : (ensured k b).transactions ≡ b.transactions
  unfolding ensured create_account
  transactions-ensured = ground arith

  pub fees-ensured : (ensured k b).fees ≡ b.fees
  unfolding ensured create_account
  fees-ensured = ground arith

  balance-created : (i : ℕ) → get_account_balance i (create_account k b) ≡ get_account_balance i b
  unfolding get_account_balance create_account
  balance-created i = refl

  created-IsValid : find_account k b.accounts ≡ none → IsValid b → IsValid (create_account k b)
  unfolding create_account
  created-IsValid e v = record {
    accounts = (refl, e, v.accounts);
    transactions = TransactionsValid-mono _ _ b.transactions (omega arith) v.transactions;
    fees = v.fees;
  }

  balance_at-created :
      (j : AccountKey)
      → find_account k b.accounts ≡ none
      → IsValid b
      → balance_at j (create_account k b) ≡ balance_at j b
  unfolding create_account find_account
  balance_at-created j e v = grind (
    arith,
    key_eq_iff k j,
    balance-created,
    balance-eq-net (length b.accounts) b,
    net-fresh_entries (length b.accounts) b.transactions v.transactions,
  )

  pub ensured-IsValid : IsValid b → IsValid (ensured k b)
  unfolding ensured create_account
  ensured-IsValid v = elim (Option-cases (find_account k b.accounts)) [
    | inl e ↦ rw (e, ensured) (created-IsValid e v)
    | inr (i, e) ↦ rw (e, ensured) v
  ]

  pub balance_at-ensured :
      (j : AccountKey) → IsValid b → balance_at j (ensured k b) ≡ balance_at j b
  unfolding ensured create_account find_account
  balance_at-ensured j v = elim (Option-cases (find_account k b.accounts)) [
    | inl e ↦ rw (e, ensured) (balance_at-created j e v)
    | inr (i, e) ↦ rw (e, ensured)
  ]
