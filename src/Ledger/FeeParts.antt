-- ===== src/Ledger/FeeParts.antt =====
-- The fee of a movement: its account, its entry and its row, all behind the test `fee > 0n`.
use tenzopay.Base.{
  ℕ, ℤ, pos, neg_ℤ, ◌≤ℤ◌, ltb_ℤ, String, some, if◌then◌else◌, List, [], ◌∷◌, length, false,
  Bool-cases, inl, inr, ◌≡◌, refl, arith,
}
use tenzopay.Effects.{ok}
use tenzopay.Ledger.Books.{
  AccountKey, LedgerDirection, debit, credit, FeeType, FeeRow, EntryInput, Books, find_account,
}
use tenzopay.Ledger.Books
use tenzopay.Ledger.Movements.{entry, system_of, fee_entries, record_fee}
use tenzopay.Ledger.Invariant.{IsValid}
use tenzopay.Ledger.View.{Legs}
use tenzopay.Ledger.Ensure.{
  ensured_id, ensured, ensure_account_lem, find-ensured_self, find-ensured_kept,
}
use tenzopay.Ledger.Moved.{Moved, Opened, Opened-ensured, create_fee-Moved}
use tenzopay.Ledger.Carries.{Carries, Carries-none, Carries-credit, Carries-debit}

abbrev pub fee_account : String → AccountKey
fee_account currency = system_of Books.system_fee_revenue currency

no_fee : (fee : ℤ) → pos 0 ≤ℤ fee → ltb_ℤ (pos 0) fee ≡ false → neg_ℤ fee ≡ pos 0
unfolding neg_ℤ
no_fee fee p t = ground arith

module _ (fee : ℤ) (currency : String) (c : Books) where
  -- The tables behind `fee_entries`, and the entries that it returns.
  unfoldable pub fee_opened : Books
  fee_opened = if ltb_ℤ (pos 0) fee then ensured (fee_account currency) c else c

  unfoldable pub fee_list : LedgerDirection → List EntryInput
  fee_list direction =
      if ltb_ℤ (pos 0) fee
      then entry (ensured_id (fee_account currency) c) direction fee currency ∷ []
      else []

  pub fee_entries_lem :
      (direction : LedgerDirection)
      → fee_entries direction fee currency c ≡ (ok (fee_list direction), fee_opened)
  unfolding fee_entries fee_list fee_opened
  fee_entries_lem direction = elim (Bool-cases (ltb_ℤ (pos 0) fee)) [
    | inl t ↦ rw (t, ensure_account_lem (fee_account currency) c)
    | inr t ↦ rw t
  ]

  pub fee_opened-Opened : {b : Books} → Opened b c → Opened b fee_opened
  unfolding fee_opened
  fee_opened-Opened o = elim (Bool-cases (ltb_ℤ (pos 0) fee)) [
    | inl t ↦ rw t (Opened-ensured (fee_account currency) o)
    | inr t ↦ rw t o
  ]

  pub fee_opened_kept :
      (j : AccountKey) (i : ℕ)
      → find_account j c.accounts ≡ some i
      → find_account j fee_opened.accounts ≡ some i
  unfolding fee_opened
  fee_opened_kept j i f = elim (Bool-cases (ltb_ℤ (pos 0) fee)) [
    | inl t ↦ rw t (find-ensured_kept (fee_account currency) c j i f)
    | inr t ↦ rw t f
  ]

  pub fee_credit-Carries :
      pos 0 ≤ℤ fee
      → Carries fee_opened.accounts (fee_list credit) ((fee_account currency, fee) ∷ [])
  unfolding fee_opened fee_list
  fee_credit-Carries p = elim (Bool-cases (ltb_ℤ (pos 0) fee)) [
    | inl t ↦ rw t (
        Carries-credit _ (fee_account currency) fee _ currency
          (find-ensured_self (fee_account currency) c) (ground arith))
    | inr t ↦ rw t (Carries-none _ (fee_account currency) fee (ground arith))
  ]

  pub fee_debit-Carries :
      pos 0 ≤ℤ fee
      → Carries fee_opened.accounts (fee_list debit) ((fee_account currency, neg_ℤ fee) ∷ [])
  unfolding fee_opened fee_list
  fee_debit-Carries p = elim (Bool-cases (ltb_ℤ (pos 0) fee)) [
    | inl t ↦ rw t (
        Carries-debit _ (fee_account currency) fee _ currency
          (find-ensured_self (fee_account currency) c) (ground arith))
    | inr t ↦ rw t (Carries-none _ (fee_account currency) (neg_ℤ fee) (no_fee fee p t))
  ]

-- The rows that `record_fee` writes.
abbrev pub fee_rows : String → FeeType → ℤ → String → ℕ → List FeeRow
fee_rows user type fee currency id =
    if ltb_ℤ (pos 0) fee
    then record {
      user_id = user;
      type = type;
      amount = fee;
      currency = currency;
      ledger_transaction_id = id;
    }
      ∷ []
    else []

pub record_fee-Moved :
    (user : String) (type : FeeType) (fee : ℤ) (currency : String) {b b' : Books} {key : String}
    {legs : Legs}
    → IsValid b
    → Moved b key legs [] (length b.transactions) b'
    → (b'' : Books) × (record_fee user type fee currency (length b.transactions) b' ≡ (ok tt, b''))
      × Moved b key legs
          (fee_rows user type fee currency (length b.transactions))
          (length b.transactions)
          b''
unfolding record_fee
record_fee-Moved user type fee currency {b' = b'} v m = elim (Bool-cases (ltb_ℤ (pos 0) fee)) [
  | inl t ↦ rw t (create_fee-Moved _ v (ground arith) refl m)
  | inr t ↦ rw t (b', refl, m)
]
