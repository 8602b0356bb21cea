-- ===== src/Ledger/View.antt =====
-- What a posting does to the balances, account by account: the balance at a (kind, user, currency)
-- and the effect of a list of legs on it.
use tenzopay.Base.{
  ℕ, ℤ, pos, ◌+ℤ◌, ◌-ℤ◌, int_laws, String, Option, none, some, Option-cases, inl, inr, ◌==◌,
  if◌then◌else◌, List, [], ◌∷◌, ◌++◌, ◌≡◌, ◌∙◌, refl, arith,
}
use tenzopay.Ledger.Books.{
  AccountKey, key_eq, key_eq_iff, credit, debit, LedgerAccount, EntryInput, LedgerTransactionType,
  Books, find_account, create_transaction,
}
use tenzopay.Ledger.Posting.{signed}
use tenzopay.Ledger.Balances.{
  ledger_entries, sum_of, add_rows, group, group_by_direction, get_account_balance,
}
use tenzopay.Ledger.Invariant.{AccountsValid, IsValid, find_account_inj}

-- The signed sum of one account's entries.
abbrev pub net : ℕ → List EntryInput → ℤ
net id [] = pos 0
net id (e ∷ rest) = (if e.account_id == id then signed e else pos 0) +ℤ net id rest

abbrev value : Option ℤ → ℤ
value none = pos 0
value (some s) = s

sums-eq-net :
    (id : ℕ) (es : List EntryInput)
    → value (sum_of credit id es) -ℤ value (sum_of debit id es) ≡ net id es
unfolding sum_of
sums-eq-net id [] = omega int_laws
sums-eq-net id (e ∷ es) = grind (int_laws, sums-eq-net id es)

rows-eq-difference :
    (c d : Option ℤ) → add_rows (pos 0) (group credit c ++ group debit d) ≡ value c -ℤ value d
unfolding add_rows
rows-eq-difference none none = omega int_laws
rows-eq-difference none (some y) = omega int_laws
rows-eq-difference (some x) none = omega int_laws
rows-eq-difference (some x) (some y) = omega int_laws

-- `getAccountBalance` groups by direction; the signed sum of the entries is the same number.
pub balance-eq-net :
    (id : ℕ) (b : Books) → get_account_balance id b ≡ net id (ledger_entries b.transactions)
unfolding get_account_balance group_by_direction
balance-eq-net id b =
    let es = ledger_entries b.transactions in
    rows-eq-difference (sum_of credit id es) (sum_of debit id es) ∙ sums-eq-net id es

pub net-append : (id : ℕ) (es fs : List EntryInput) → net id (es ++ fs) ≡ net id es +ℤ net id fs
net-append id [] fs = omega int_laws
net-append id (e ∷ es) fs = rw (net-append id es fs) (omega int_laws)

pub balance-create :
    (id : ℕ) (ty : LedgerTransactionType) (key : String) (es : List EntryInput) (b : Books)
    → get_account_balance id (create_transaction ty key es b)
      ≡ net id es +ℤ get_account_balance id b
unfolding create_transaction ledger_entries
balance-create id ty key es b =
    simp balance-eq-net (net-append id es (ledger_entries b.transactions))

-- The balance at a key; an account that is not there yet has none.
abbrev pub balance_at : AccountKey → Books → ℤ
balance_at k b = elim (find_account k b.accounts) [
  | none ↦ pos 0
  | some id ↦ get_account_balance id b
]

abbrev pub Legs : Type 0
Legs = List (AccountKey × ℤ)

-- What the legs add to the balance at a key.
abbrev pub effect : Legs → AccountKey → ℤ
effect [] k = pos 0
effect ((j, x) ∷ rest) k = (if key_eq j k then x else pos 0) +ℤ effect rest k

-- The entries post these legs to the accounts of the table.
abbrev pub Posts : List LedgerAccount → List EntryInput → Legs → Type 0
Posts accounts [] [] = Unit
Posts accounts [] (l ∷ ls) = ⊥
Posts accounts (e ∷ es) [] = ⊥
Posts accounts (e ∷ es) ((j, x) ∷ ls) =
    (find_account j accounts ≡ some e.account_id) × (signed e ≡ x) × Posts accounts es ls

net-eq-effect :
    (k : AccountKey) (id : ℕ) (accounts : List LedgerAccount) (es : List EntryInput) (ls : Legs)
    → AccountsValid accounts
    → find_account k accounts ≡ some id
    → Posts accounts es ls
    → net id es ≡ effect ls k
net-eq-effect k id accounts [] [] v f p = refl
net-eq-effect k id accounts [] (l ∷ ls) v f p = absurd p
net-eq-effect k id accounts (e ∷ es) [] v f p = absurd p
net-eq-effect k id accounts (e ∷ es) ((j, x) ∷ ls) v f p = ground (
  arith,
  key_eq_iff j k,
  find_account_inj j k accounts id v,
  net-eq-effect k id accounts es ls v f p.2,
)

effect-eq-zero :
    (k : AccountKey) (accounts : List LedgerAccount) (es : List EntryInput) (ls : Legs)
    → find_account k accounts ≡ none
    → Posts accounts es ls
    → effect ls k ≡ pos 0
effect-eq-zero k accounts [] [] f p = refl
effect-eq-zero k accounts [] (l ∷ ls) f p = absurd p
effect-eq-zero k accounts (e ∷ es) [] f p = absurd p
effect-eq-zero k accounts (e ∷ es) ((j, x) ∷ ls) f p =
    grind (int_laws, key_eq_iff j k, effect-eq-zero k accounts es ls f p.2)

pub balance_at-create :
    (k : AccountKey) (ty : LedgerTransactionType) (key : String) (es : List EntryInput) (ls : Legs)
    (b : Books)
    → IsValid b
    → Posts b.accounts es ls
    → balance_at k (create_transaction ty key es b) ≡ effect ls k +ℤ balance_at k b
unfolding create_transaction
balance_at-create k ty key es ls b v p = elim (Option-cases (find_account k b.accounts)) [
  | inl e ↦ rw (e, balance_at) (rw (effect-eq-zero k b.accounts es ls e p) (omega int_laws))
  | inr (id, e) ↦
      rw (e, balance_at)
        (cc (balance-create id ty key es b, net-eq-effect k id b.accounts es ls v.accounts e p))
]
