-- ===== src/Ledger/Tests.antt =====
-- Runs of the transaction bodies of apps/api/src/ledger/ledger.service.ts on small books.
use tenzopay.Base.{◌-ℤ◌, ◌+ℤ◌, neg_ℤ, id_eq, str_eq, pos, some, [], ◌∷◌, ◌≡◌, refl, arith}
use tenzopay.Effects.{ok, err}
use tenzopay.Ledger.Books
use tenzopay.Ledger.Books.{
  debit, credit, Books, AccountKey, LedgerTransaction, find_transaction, find_account, key_eq,
  kind_eq, has_fee,
}
use tenzopay.Ledger.Posting.{ensure_account, net_of, assert_balanced, post_checked, post}
use tenzopay.Ledger.Movements.{
  available_of, held_of, system_of, fee_entries, record_fee, credit_deposit_body, place_hold_body,
}
use tenzopay.Ledger.Invariant.{IsValid}
use tenzopay.Ledger.Deposited.{credit_deposit_body-Posted}
use tenzopay.Ledger.View.{balance_at}
use tenzopay.Ledger.Wallet.{wallet_of, held, spend, perform, key_of}
use tenzopay.Base.{true, ◌↔◌, int_laws}
use tenzopay.Effects.{transaction, insufficient_balance}
use tenzopay.Ledger.Movements.{charge_fee_body, settle_authorization_body, post_adjustment_body}
use tenzopay.Ledger.Balances.{get_balance}
use tenzopay.Ledger.Integrity.{NonNegative, verify_integrity, verify_integrity_iff}
use tenzopay.Ledger.Overdraft.{place_hold-NonNegative}
use tenzopay.Ledger.Holds.{place_hold_body_refused}
use tenzopay.Ledger.Moved.{Posted}
use tenzopay.Ledger.Settled.{settlement_legs, settle_authorization_body-Posted}
use tenzopay.Ledger.Deposited.{deposit_legs}
use tenzopay.Ledger.FeeParts.{fee_rows}
use tenzopay.Ledger.Charges.{charge_fee_body_refused}
use tenzopay.Ledger.Transfers.{post_adjustment_body_debit}
use tenzopay.Ledger.Conservation.{total_balance, total_balance-eq-zero}
use tenzopay.Ledger.Check.{assert_balanced_iff}
use tenzopay.Ledger.Invariant.{IsBalanced}
use tenzopay.Ledger.Snapshot.{get_balance_lem}
use tenzopay.Ledger.Refinement.{perform-refines-spend, perform_elsewhere}
use tenzopay.Ledger.Samples.{
  empty_books, empty-IsValid, deposit_row, funded, funded-IsValid, fresh_auth, covered, apart,
  short, funded-NonNegative,
}

funded_run :
    credit_deposit_body "u1" "d1" (pos 100000000) (pos 2000000) "USDT" empty_books ≡ (ok 0, funded)
unfolding credit_deposit_body find_account ensure_account Books.create_account key_eq kind_eq
    fee_entries post assert_balanced net_of ◌-ℤ◌ ◌+ℤ◌ neg_ℤ post_checked find_transaction record_fee
    Books.create_fee Books.has_fee Books.create_transaction id_eq str_eq
funded_run = refl

perform-refines-spend_example :
    (b' : Books) × (perform (held "auth:1" (pos 30000000)) "u1" "USDT" funded ≡ (ok 1, b'))
    × IsValid b'
    × (find_transaction "auth:1" b'.transactions ≡ some 1)
    × (wallet_of "u1" "USDT" b'
        ≡ spend (held "auth:1" (pos 30000000)) (wallet_of "u1" "USDT" funded))
unfolding key_of
perform-refines-spend_example =
    perform-refines-spend "u1" "USDT" funded funded-IsValid (held "auth:1" (pos 30000000))
      (omega arith, covered) fresh_auth

perform_elsewhere_run :
    wallet_of "u2" "USDT" (perform (held "auth:1" (pos 30000000)) "u1" "USDT" funded).1
    ≡ wallet_of "u2" "USDT" funded
unfolding key_of
perform_elsewhere_run =
    perform_elsewhere "u1" "USDT" funded funded-IsValid (held "auth:1" (pos 30000000)) "u2" "USDT"
      apart (omega arith, covered) fresh_auth

verify_integrity_iff_example : ((verify_integrity funded).is_ok ≡ true) ↔ NonNegative funded
verify_integrity_iff_example = verify_integrity_iff funded funded-IsValid

place_hold-NonNegative_example :
    NonNegative (transaction (place_hold_body "u1" "auth:1" (pos 200000000) "USDT") funded).1
place_hold-NonNegative_example =
    place_hold-NonNegative "u1" "auth:1" (pos 200000000) "USDT" funded funded-IsValid
      funded-NonNegative

place_hold_body_refused_run :
    (place_hold_body "u1" "auth:1" (pos 99000000) "USDT" funded).0
    ≡ err (insufficient_balance (balance_at (available_of "u1" "USDT") funded) (pos 99000000))
place_hold_body_refused_run =
    place_hold_body_refused "u1" "auth:1" (pos 99000000) "USDT" funded funded-IsValid fresh_auth
      short

settle_authorization_body-Posted_example :
    Posted funded "auth:1"
      (settlement_legs "u1" "USDT" (pos 30000000) (pos 25000000) (pos 1000000))
      (fee_rows "u1" Books.fx (pos 1000000) "USDT" 1)
      (settle_authorization_body "u1" "auth:1"
        (pos 30000000)
        (pos 25000000)
        (pos 1000000)
        "USDT"
        funded)
settle_authorization_body-Posted_example =
    settle_authorization_body-Posted "u1" "auth:1" (pos 30000000) (pos 25000000) (pos 1000000)
      "USDT" funded funded-IsValid (omega arith) (omega arith) (omega arith) fresh_auth

credit_deposit_body-Posted_run :
    Posted empty_books "deposit:d1:confirm"
      (deposit_legs "u1" "USDT" (pos 100000000) (pos 2000000))
      (fee_rows "u1" Books.deposit (pos 2000000) "USDT" 0)
      (credit_deposit_body "u1" "d1" (pos 100000000) (pos 2000000) "USDT" empty_books)
unfolding find_transaction
credit_deposit_body-Posted_run =
    credit_deposit_body-Posted "u1" "d1" (pos 100000000) (pos 2000000) "USDT" empty_books
      empty-IsValid (omega arith) (omega arith) refl

charge_fee_body_refused_run :
    (charge_fee_body "u1" "auth:1" (pos 99000000) Books.monthly "USDT" funded).0
    ≡ err (insufficient_balance (balance_at (available_of "u1" "USDT") funded) (pos 99000000))
charge_fee_body_refused_run =
    charge_fee_body_refused "u1" "auth:1" (pos 99000000) Books.monthly "USDT" funded funded-IsValid
      fresh_auth short

post_adjustment_body_debit_run :
    Posted funded "auth:1"
      ((available_of "u1" "USDT", neg_ℤ (neg_ℤ (neg_ℤ (pos 30000000))))
        ∷ (system_of Books.system_adjustment "USDT", neg_ℤ (neg_ℤ (pos 30000000)))
        ∷ [])
      []
      (post_adjustment_body "u1" "auth:1" (neg_ℤ (pos 30000000)) "USDT" funded)
unfolding neg_ℤ find_account
post_adjustment_body_debit_run =
    post_adjustment_body_debit "u1" "auth:1" (neg_ℤ (pos 30000000)) "USDT" funded funded-IsValid
      (omega int_laws) covered fresh_auth

total_balance-eq-zero_example : total_balance funded funded.accounts ≡ pos 0
total_balance-eq-zero_example = total_balance-eq-zero funded funded-IsValid

assert_balanced_iff_example :
    (assert_balanced deposit_row.entries ≡ ok tt) ↔ IsBalanced deposit_row.entries
assert_balanced_iff_example = assert_balanced_iff deposit_row.entries

get_balance_lem_run :
    ((get_balance "u1" "USDT" funded).available ≡ balance_at (available_of "u1" "USDT") funded)
    × ((get_balance "u1" "USDT" funded).held ≡ balance_at (held_of "u1" "USDT") funded)
    × ((get_balance "u1" "USDT" funded).total
        ≡ balance_at (available_of "u1" "USDT") funded +ℤ balance_at (held_of "u1" "USDT") funded)
get_balance_lem_run = get_balance_lem "u1" "USDT" funded funded-IsValid
