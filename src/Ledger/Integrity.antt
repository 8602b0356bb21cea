-- ===== src/Ledger/Integrity.antt =====
-- `verifyIntegrity` of apps/api/src/ledger/ledger.service.ts.
use tenzopay.Base.{
  ℕ, pos, ◌≤ℤ◌, ltb_ℤ, eqb_ℤ, Bool, true, false, ◌&&◌, ◌||◌, inl, inr, if◌then◌else◌, Option-cases,
  some, List, [], ◌∷◌, length, ◌≡◌, ◌↔◌, refl, arith,
}
use tenzopay.Ledger.Books.{
  AccountKey, key_eq_iff, kind_eq, user_available, user_held, LedgerAccountKind, LedgerAccount,
  LedgerTransaction, Books, find_account,
}
use tenzopay.Ledger.Balances.{get_account_balance}
use tenzopay.Ledger.Invariant.{AccountsValid, TransactionsValid, IsValid, sum_signed}
use tenzopay.Ledger.View.{balance_at}

-- `GROUP BY "transactionId" HAVING SUM(CASE ...) <> 0`
unfoldable pub unbalanced : List LedgerTransaction → List ℕ
unbalanced [] = []
unbalanced (t ∷ rest) =
    let more = unbalanced rest in if eqb_ℤ (sum_signed t.entries) (pos 0) then more else t.id ∷ more

abbrev pub is_user_kind : LedgerAccountKind → Bool
is_user_kind k = kind_eq k user_available || kind_eq k user_held

-- `WHERE la.kind IN (...) GROUP BY la.id HAVING SUM(CASE ...) < 0`
unfoldable pub negative_balances : Books → List LedgerAccount → List ℕ
negative_balances b [] = []
negative_balances b (a ∷ rest) =
    let more = negative_balances b rest in
    if is_user_kind a.key.kind && ltb_ℤ (get_account_balance a.id b) (pos 0)
    then a.id ∷ more
    else more

abbrev is_empty : List ℕ → Bool
is_empty [] = true
is_empty (x ∷ xs) = false

pub record IntegrityReport : Type 0 where
  pub is_ok : Bool
  pub checked_transactions : ℕ
  pub unbalanced_ids : List ℕ
  pub negative_ids : List ℕ

unfoldable pub verify_integrity : Books → IntegrityReport
verify_integrity b =
    let u = unbalanced b.transactions in
    let n = negative_balances b b.accounts in
    record {
      is_ok = is_empty u && is_empty n;
      checked_transactions = length b.transactions;
      unbalanced_ids = u;
      negative_ids = n;
    }

-- I5: no balance of a user's account is negative.
pub record NonNegative (b : Books) : Type 0 where
  pub user_balances : (k : AccountKey) → is_user_kind k.kind ≡ true → pos 0 ≤ℤ balance_at k b

no_unbalanced : (n : ℕ) (ts : List LedgerTransaction) → TransactionsValid n ts → unbalanced ts ≡ []
unfolding unbalanced
no_unbalanced n [] v = refl
no_unbalanced n (t ∷ rest) v = rw (v.2.zero_sum) (no_unbalanced n rest v.4)

nonnegative_found :
    (b : Books) (accounts : List LedgerAccount) (k : AccountKey) (i : ℕ)
    → negative_balances b accounts ≡ []
    → find_account k accounts ≡ some i
    → is_user_kind k.kind ≡ true
    → pos 0 ≤ℤ get_account_balance i b
unfolding negative_balances find_account
nonnegative_found b [] k i h f u = ground arith
nonnegative_found b (a ∷ rest) k i h f u =
    ground (arith, key_eq_iff a.key k, nonnegative_found b rest k i)

none_negative :
    (b : Books) (accounts : List LedgerAccount)
    → AccountsValid accounts
    → ((k : AccountKey) (i : ℕ)
        → find_account k accounts ≡ some i
        → is_user_kind k.kind ≡ true
        → pos 0 ≤ℤ get_account_balance i b)
    → negative_balances b accounts ≡ []
unfolding negative_balances find_account
none_negative b [] v h = refl
none_negative b (a ∷ rest) v h = ground (
  arith,
  h a.key a.id (ground (arith, key_eq_iff a.key a.key)),
  none_negative b rest v.2 (λ k i f u. h k i (ground (arith, key_eq_iff a.key k)) u),
)

no_negative_ids : (u n : List ℕ) → (is_empty u && is_empty n) ≡ true → n ≡ []
no_negative_ids u [] h = refl
no_negative_ids [] (x ∷ n) h = cc
no_negative_ids (y ∷ u) (x ∷ n) h = cc

-- On valid books the check answers yes exactly when no user balance is negative.
pub verify_integrity_iff :
    (b : Books) → IsValid b → ((verify_integrity b).is_ok ≡ true) ↔ NonNegative b
unfolding verify_integrity
verify_integrity_iff b v = (
  λ good. record {
    user_balances = λ k u. elim (Option-cases (find_account k b.accounts)) [
      | inl f ↦ rw (f, balance_at) (omega arith)
      | inr (i, f) ↦
          rw (f, balance_at) (nonnegative_found b b.accounts k i (no_negative_ids _ _ good) f u)
    ];
  },
  λ nonneg. rw (no_unbalanced _ b.transactions v.transactions) (
      rw (
        none_negative b b.accounts v.accounts
          (λ k i f u. rw (f, balance_at) at (nonneg.user_balances k u)))),
)
