-- ===== src/Ledger/FeeSteps.antt =====
-- The steps of a body that are about its fee (apps/api/src/ledger/ledger.service.ts), for all
-- arguments.
use tenzopay.Base.{
  ℕ, ◌<◌, ℤ, pos, ltb_ℤ, String, Bool-cases, inl, inr, List, [], ◌∷◌, ◌++◌, length, refl, arith,
}
use tenzopay.Ledger.Books.{LedgerDirection, EntryInput, FeeType, Books}
use tenzopay.Ledger.Movements.{settled_entries, remainder_entries, record_fee}
use tenzopay.Ledger.Invariant.{IsValid}
use tenzopay.Ledger.Ensure.{ensured-IsValid, find-ensured_self}
use tenzopay.Ledger.FeeParts.{fee_account, fee_opened, fee_list}
use tenzopay.Ledger.Safety.{Good, Keeps, create_fee-Keeps}
use tenzopay.Ledger.BodySafety.{Known, found-lt}

pub Known-append :
    (c : Books) (es fs : List EntryInput) → Known c es → Known c fs → Known c (es ++ fs)
Known-append c [] fs p q = q
Known-append c (e ∷ es) fs p q = (p.0, Known-append c es fs p.1 q)

pub Known-settled :
    (c : Books) (i : ℕ) (x : ℤ) (currency : String)
    → i < length c.accounts
    → Known c (settled_entries i x currency)
Known-settled c i x currency p = elim (Bool-cases (ltb_ℤ (pos 0) x)) [
  | inl t ↦ rw t (p, tt)
  | inr t ↦ rw t tt
]

pub Known-remainder :
    (c : Books) (i : ℕ) (x : ℤ) (currency : String)
    → i < length c.accounts
    → Known c (remainder_entries i x currency)
Known-remainder c i x currency p = elim (Bool-cases (ltb_ℤ x (pos 0))) [
  | inl t ↦ rw t (p, tt)
  | inr t ↦ rw t (Known-settled c i x currency p)
]

module _ (fee : ℤ) (currency : String) (c : Books) where
  pub Known-fee_list :
      (direction : LedgerDirection)
      → IsValid c
      → Known (fee_opened fee currency c) (fee_list fee currency c direction)
  unfolding fee_opened fee_list
  Known-fee_list direction v = elim (Bool-cases (ltb_ℤ (pos 0) fee)) [
    | inl t ↦ rw t (
      found-lt (fee_account currency) _ (ensured-IsValid (fee_account currency) c v)
          (find-ensured_self (fee_account currency) c),
      tt,
    )
    | inr t ↦ rw t tt
  ]

-- The row that follows the posting, and the id that is returned.
pub record_fee-Keeps :
    (user : String) (type : FeeType) (fee : ℤ) (currency : String) {b b' : Books} {key : String}
    (id : ℕ)
    → Good b key id b'
    → Keeps b key (λ _. id) (record_fee user type fee currency id b')
unfolding record_fee
record_fee-Keeps user type fee currency id g = elim (Bool-cases (ltb_ℤ (pos 0) fee)) [
  | inl t ↦ rw t (create_fee-Keeps _ id (ground arith) refl g)
  | inr t ↦ rw t g
]
