-- ===== src/Fees/Floor.antt =====
-- A floor under the deposit fee (apps/api/src/ledger/fees.service.ts) against a deposit that is
-- smaller than it (creditDeposit of apps/api/src/ledger/ledger.service.ts).
use tenzopay.Base.{
  ℤ, pos, ◌-ℤ◌, ◌≤ℤ◌, ◌<ℤ◌, ltb_ℤ, leb_ℤ, String, true, false, ◌||◌, List, ◌∷◌, ◌≡◌, arith, ℕ, suc,
  ltb, length,
}
use tenzopay.Effects.{ledger_imbalance, amount_not_positive, err}
use tenzopay.Ledger.Books.{LedgerTransactionType, debit, credit, EntryInput, Books}
use tenzopay.Ledger.Books
use tenzopay.Ledger.Posting.{net_of, assert_balanced, post}
use tenzopay.Ledger.Movements.{entry, available_of, system_of, credit_deposit_body}
use tenzopay.Ledger.Ensure.{ensured, ensure_account_lem}
use tenzopay.Ledger.Pairs.{opened_two}
use tenzopay.Ledger.FeeParts.{fee_entries_lem}
use tenzopay.Fees.Rates.{DepositRates, clamp, deposit_fee}

takes_all :
    (rates : DepositRates) (amount : ℤ)
    → pos 0 <ℤ amount
    → amount ≤ℤ rates.min
    → rates.max ≤ℤ pos 0
    → deposit_fee rates amount ≡ amount
unfolding deposit_fee clamp
takes_all rates amount p q r = ground arith

nothing_credited : (a : ℤ) → leb_ℤ (a -ℤ a) (pos 0) ≡ true
unfolding ◌-ℤ◌
nothing_credited a = ground arith

positive_debit : (a : ℤ) → pos 0 <ℤ a → leb_ℤ a (pos 0) ≡ false
positive_debit a p = ground arith

guard_passes : (a : ℤ) → pos 0 <ℤ a → (ltb_ℤ a (pos 0) || ltb_ℤ a a) ≡ false
guard_passes a p = ground arith

enough_entries : (n : ℕ) → ltb (suc (suc n)) 2 ≡ false
enough_entries n = ground arith

post_refuses_zero :
    (ty : LedgerTransactionType) (key : String) (i h : ℕ) (a : ℤ) (currency : String)
    (fees : List EntryInput) (c : Books)
    → pos 0 <ℤ a
    → post ty key (entry i debit a currency ∷ entry h credit (a -ℤ a) currency ∷ fees) c
      ≡ (err (ledger_imbalance amount_not_positive), c)
unfolding post assert_balanced net_of
post_refuses_zero ty key i h a currency fees c p =
    rw (nothing_credited a, positive_debit a p, enough_entries (length fees), post)

-- A deposit that is not above the floor of its fee, under rates without a ceiling, is never credited:
-- the fee takes all of it, the guard of creditDeposit lets such a fee pass, and the posting is
-- refused for the entry of zero that is left.
pub credit_deposit_body_floored :
    (rates : DepositRates) (user id : String) (amount : ℤ) (currency : String) (b : Books)
    → pos 0 <ℤ amount
    → amount ≤ℤ rates.min
    → rates.max ≤ℤ pos 0
    → (credit_deposit_body user id amount (deposit_fee rates amount) currency b).0
      ≡ err (ledger_imbalance amount_not_positive)
unfolding credit_deposit_body
credit_deposit_body_floored rates user id amount currency b p q r =
    let j = available_of user currency in
    let k = system_of Books.system_deposit_clearing currency in
    rw (
      takes_all rates amount p q r,
      ensure_account_lem j b,
      ensure_account_lem k (ensured j b),
      guard_passes amount p,
      fee_entries_lem amount currency (opened_two j k b) credit,
      post_refuses_zero Books.deposit_confirmed _ _ _ amount currency _ _ p,
    )
