-- ===== src/Ledger/Samples.antt =====
-- Small books on which the methods of apps/api/src/ledger/ledger.service.ts are run.
use tenzopay.Base.{
  ◌+ℤ◌, neg_ℤ, id_eq, str_eq, pos, ◌≤ℤ◌, String, none, [], ◌∷◌, ◌≡◌, ◌≢◌, refl, arith,
}
use tenzopay.Ledger.Books
use tenzopay.Ledger.Books.{
  debit, credit, Books, AccountKey, LedgerTransaction, find_transaction, find_account, key_eq,
  kind_eq, has_fee,
}
use tenzopay.Ledger.Balances.{
  ledger_entries, sum_of, group_by_direction, add_rows, get_account_balance,
}
use tenzopay.Ledger.Movements.{available_of, system_of, entry}
use tenzopay.Ledger.Invariant.{IsValid}
use tenzopay.Ledger.View.{balance_at}
use tenzopay.Base.{str_eq_iff, ◌<ℤ◌}
use tenzopay.Ledger.Integrity.{
  NonNegative, verify_integrity, verify_integrity_iff, unbalanced, negative_balances,
}
use tenzopay.Effects.{Thrown, prisma_known}
use tenzopay.Ledger.Methods.{Weather}
use tenzopay.Ledger.Safety.{Extends-refl}
use tenzopay.Ledger.CallSafety.{Honest, IsHonest}
use tenzopay.Base.{◌==◌, if◌then◌else◌, some}

abbrev pub empty_books : Books
empty_books = record { accounts = []; transactions = []; fees = [] }

pub empty-IsValid : IsValid empty_books
empty-IsValid = record { accounts = tt; transactions = tt; fees = tt }

abbrev pub deposit_row : LedgerTransaction
deposit_row = record {
  id = 0;
  type = Books.deposit_confirmed;
  idempotency_key = "deposit:d1:confirm";
  entries =
      entry 1 debit (pos 100000000) "USDT"
      ∷ entry 0 credit (pos 98000000) "USDT"
      ∷ entry 2 credit (pos 2000000) "USDT"
      ∷ [];
}

-- 100 USDT deposited by u1, of which 2 are the fee.
abbrev pub funded : Books
funded = record {
  accounts =
      record { id = 2; key = system_of Books.system_fee_revenue "USDT" }
      ∷ record { id = 1; key = system_of Books.system_deposit_clearing "USDT" }
      ∷ record { id = 0; key = available_of "u1" "USDT" }
      ∷ [];
  transactions = deposit_row ∷ [];
  fees =
      record {
        user_id = "u1";
        type = Books.deposit;
        amount = pos 2000000;
        currency = "USDT";
        ledger_transaction_id = 0;
      }
      ∷ [];
}

pub funded-IsValid : IsValid funded
unfolding find_account find_transaction key_eq kind_eq id_eq str_eq has_fee ◌+ℤ◌ neg_ℤ
funded-IsValid = record {
  accounts = (refl, refl, (refl, refl, (refl, refl, tt)));
  transactions = (
    refl,
    refl,
    record {
      two_entries = omega arith;
      positive = (omega arith, (omega arith, (omega arith, tt)));
      zero_sum = refl;
    },
    (omega arith, (omega arith, (omega arith, tt))),
    tt,
  );
  fees = (omega arith, omega arith, refl, tt);
}

pub available_funded : balance_at (available_of "u1" "USDT") funded ≡ pos 98000000
unfolding find_account key_eq kind_eq id_eq str_eq get_account_balance group_by_direction sum_of
    add_rows ledger_entries ◌+ℤ◌
available_funded = refl

pub fresh_auth : find_transaction "auth:1" funded.transactions ≡ none
unfolding find_transaction str_eq
fresh_auth = refl

pub covered : pos 30000000 ≤ℤ balance_at (available_of "u1" "USDT") funded
covered = rw available_funded (omega arith)

pub apart : ◌≢◌ {A = String} "u1" "u2"
unfolding str_eq
apart e = cc ((str_eq_iff "u1" "u2").1 e)

pub short : balance_at (available_of "u1" "USDT") funded <ℤ pos 99000000
short = rw available_funded (omega arith)

pub funded-NonNegative : NonNegative funded
unfolding verify_integrity unbalanced negative_balances kind_eq get_account_balance
    group_by_direction sum_of add_rows ledger_entries ◌+ℤ◌ neg_ℤ
funded-NonNegative = (verify_integrity_iff funded funded-IsValid).0 refl

abbrev pub conflict : Thrown
conflict = prisma_known "P2034" none "Transaction failed due to a write conflict"

-- The first attempt of a call is aborted by a conflict; nobody else writes.
abbrev pub stormy : Weather
stormy = record {
  around = λ n. record { others = λ b. b; fault = if n == 0 then some conflict else none };
  later = λ b. b;
}

pub quiet : Honest (λ b. b)
quiet = record { valid = λ b v. v; extends = λ b v. Extends-refl b }

pub stormy-IsHonest : IsHonest stormy
stormy-IsHonest = record { around = λ n. quiet; later = quiet }
