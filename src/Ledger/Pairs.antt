-- ===== src/Ledger/Pairs.antt =====
-- Two accounts opened one behind the other, a posting between them, and the test of the funds.
use tenzopay.Base.{ℕ, ℤ, pos, neg_ℤ, ◌≤ℤ◌, ◌<ℤ◌, String, none, some, [], ◌∷◌, ◌≡◌, refl, ◌∙◌, arith}
use tenzopay.Effects.{ok, err, insufficient_balance}
use tenzopay.Ledger.Books.{
  AccountKey, debit, credit, LedgerTransactionType, Books, find_account, find_transaction,
}
use tenzopay.Ledger.Posting.{post}
use tenzopay.Ledger.Balances.{get_account_balance}
use tenzopay.Ledger.Movements.{entry, require_funds}
use tenzopay.Ledger.Invariant.{IsValid}
use tenzopay.Ledger.View.{balance_at}
use tenzopay.Ledger.Ensure.{ensured_id, ensured, find-ensured_self, find-ensured_kept}
use tenzopay.Ledger.Moved.{
  Opened, Opened-refl, Opened-ensured, Posted, post-Posted, pair-IsBalanced,
}

pub found-balance :
    (k : AccountKey) (b : Books) (i : ℕ)
    → find_account k b.accounts ≡ some i
    → get_account_balance i b ≡ balance_at k b
found-balance k b i e = rw (e, balance_at)

-- Two accounts, opened one behind the other.
module _ (j k : AccountKey) (b : Books) where
  abbrev pub opened_two : Books
  opened_two = ensured k (ensured j b)

  abbrev pub first_id : ℕ
  first_id = ensured_id j b

  abbrev pub second_id : ℕ
  second_id = ensured_id k (ensured j b)

  pub first-found : find_account j opened_two.accounts ≡ some first_id
  first-found = find-ensured_kept k (ensured j b) j first_id (find-ensured_self j b)

  pub second-found : find_account k opened_two.accounts ≡ some second_id
  second-found = find-ensured_self k (ensured j b)

  pub opened_two-Opened : IsValid b → Opened b opened_two
  opened_two-Opened v = Opened-ensured k (Opened-ensured j (Opened-refl v))

  -- What `getAccountBalance` reads behind the opening is the balance at the first key.
  pub first-balance : IsValid b → get_account_balance first_id opened_two ≡ balance_at j b
  first-balance v =
      found-balance j opened_two first_id first-found ∙ (opened_two-Opened v).balances j

  module _ (ty : LedgerTransactionType) (key : String) (amount : ℤ) (currency : String)
      (v : IsValid b) (p : pos 0 <ℤ amount)
      (fresh : find_transaction key b.transactions ≡ none) where
    -- From the first account to the second.
    pub debit_first-Posted : Posted b key ((j, neg_ℤ amount) ∷ (k, amount) ∷ []) [] (
        post ty key
          (entry first_id debit amount currency ∷ entry second_id credit amount currency ∷ [])
          opened_two)
    debit_first-Posted =
        post-Posted ty key _ _ (opened_two-Opened v) (pair-IsBalanced _ _ amount currency p)
          (first-found, refl, (second-found, refl, tt)) fresh

    -- From the second account to the first.
    pub debit_second-Posted : Posted b key ((k, neg_ℤ amount) ∷ (j, amount) ∷ []) [] (
        post ty key
          (entry second_id debit amount currency ∷ entry first_id credit amount currency ∷ [])
          opened_two)
    debit_second-Posted =
        post-Posted ty key _ _ (opened_two-Opened v) (pair-IsBalanced _ _ amount currency p)
          (second-found, refl, (first-found, refl, tt)) fresh

pub require_funds_enough :
    (i : ℕ) (amount funds : ℤ) (b : Books)
    → get_account_balance i b ≡ funds
    → amount ≤ℤ funds
    → require_funds i amount b ≡ (ok funds, b)
unfolding require_funds
require_funds_enough i amount funds b e h = ground arith

pub require_funds_short :
    (i : ℕ) (amount funds : ℤ) (b : Books)
    → get_account_balance i b ≡ funds
    → funds <ℤ amount
    → require_funds i amount b ≡ (err (insufficient_balance funds amount), b)
unfolding require_funds
require_funds_short i amount funds b e h = ground arith
