-- ===== src/Billing/Tests.antt =====
-- Runs of apps/api/src/billing/billing.service.ts.
use tenzopay.Base.{pos, leb_ℤ, str_eq, none, some, true, [], ◌∷◌, if◌then◌else◌, ◌≡◌, refl, arith}
use tenzopay.Effects.{ok}
use tenzopay.Ledger.Books
use tenzopay.Ledger.Books.{find_transaction}
use tenzopay.Ledger.Wallet.{wallet_of, charged, spend}
use tenzopay.Ledger.Samples.{stormy, stormy-IsHonest, funded, funded-IsValid, covered, short}
use tenzopay.Asa.State.{user_active}
use tenzopay.Texts.{units, big_int, trim, trim_start, trim_end, is_space, read_digits}
use tenzopay.Settings.Registry.{registry}
use tenzopay.Settings.Service.{find_definition, find_value, parsed, get}
use tenzopay.Queries.{read}
use tenzopay.Billing.State.{team, User, Firm, Turn, Instant, find_user}
use tenzopay.Billing.Charge
use tenzopay.Billing.Charge.{
  period, fee_key, price_for, days_failing, since_or, retried, downgraded, charge_account,
  charge_due_plans,
}
use tenzopay.Billing.Moved.{Moved}
use tenzopay.Billing.Overdue.{is_overdue}
use tenzopay.Billing.Passes.{charge_due_plans-Keeps, charge_account_again}
use tenzopay.Ledger.Invariant.{IsValid}
use tenzopay.Ledger.Safety.{Extends}
use tenzopay.Billing.Turns.{IsOwing, charge_account-Pays, charge_account-Unpaid}

-- A Team account that failed to pay eight days ago.
abbrev debtor : User
debtor = record { id = "u1"; plan = team; status = user_active; plan_dunning_since = some 1000 }

-- Team costs 30 USDT here.
abbrev firm : Firm
firm = record {
  books = funded;
  office = record {
    settings =
        record { key = "fee.plan.team"; value = units "30000000"; updated_by_id = none } ∷ [];
    admin_actions = [];
    audit_logs = [];
  };
  users = debtor ∷ [];
  admin_actions = [];
  audit_logs = [];
  notices = [];
}

abbrev expensive : Firm
expensive = record firm {
  office = record {
    settings =
        record { key = "fee.plan.team"; value = units "99000000"; updated_by_id = none } ∷ [];
    admin_actions = [];
    audit_logs = [];
  };
}

abbrev turn : Turn
turn = record {
  weather = record { around = λ n. record { others = λ b. b; fault = none }; later = λ b. b };
  fault = λ q. none;
}

abbrev now : Instant
now = record { time = 691201000; year = "2026"; month = 8 }

days_of_grace : get none "billing.dunning_days" firm.office ≡ (ok (pos 7), firm.office)
unfolding get find_definition registry find_value str_eq read parsed big_int trim trim_start
    trim_end is_space read_digits
days_of_grace = refl

known_debtor : find_user "u1" firm.users ≡ some debtor
unfolding find_user str_eq
known_debtor = refl

charge_due_plans-Keeps_example :
    let t =
      (charge_due_plans none none
        (λ id. record { weather = stormy; fault = λ q. none })
        now
        firm).1 in
    IsValid t.books
    × Extends funded t.books
    × ((w : User) × (find_user "u1" t.users ≡ some w)
        × Moved (λ k. is_overdue now.time (pos 7) k firm.users ≡ true) debtor w)
charge_due_plans-Keeps_example =
    charge_due_plans-Keeps none (λ id. record { weather = stormy; fault = λ q. none }) now (pos 7)
      firm "u1" debtor (λ id. stormy-IsHonest) days_of_grace funded-IsValid known_debtor

debtor-IsOwing : IsOwing turn now debtor (pos 30000000) firm
unfolding get find_definition registry find_value str_eq read parsed big_int trim trim_start
    trim_end is_space read_digits price_for find_transaction
debtor-IsOwing = record {
  priced = refl;
  positive = omega arith;
  unposted = refl;
  existing_query = refl;
  clear_query = refl;
  drop_query = refl;
  log_query = refl;
  start_query = refl;
  calm = record { alone = refl; runs = refl };
}

much-IsOwing : IsOwing turn now debtor (pos 99000000) expensive
unfolding get find_definition registry find_value str_eq read parsed big_int trim trim_start
    trim_end is_space read_digits price_for find_transaction
much-IsOwing = record {
  priced = refl;
  positive = omega arith;
  unposted = refl;
  existing_query = refl;
  clear_query = refl;
  drop_query = refl;
  log_query = refl;
  start_query = refl;
  calm = record { alone = refl; runs = refl };
}

charge_account-Pays_example :
    let r = charge_account turn now (pos 7) debtor firm in
    (r.0 ≡ ok Charge.charged)
    × (find_transaction "fee:monthly:u1:2026-09" r.1.books.transactions ≡ some 1)
    × (wallet_of "u1" "USDT" r.1.books
        ≡ spend
            (charged "fee:monthly:u1:2026-09" (pos 30000000) Books.monthly)
            (wallet_of "u1" "USDT" funded))
charge_account-Pays_example =
    charge_account-Pays turn now (pos 7) debtor (pos 30000000) firm debtor-IsOwing funded-IsValid
      covered

charge_account-Unpaid_example :
    let r = charge_account turn now (pos 7) debtor expensive in
    (r.0 ≡ ok (if leb_ℤ (pos 7) (days_failing 691201000 1000) then downgraded else retried))
    × (r.1.books ≡ funded)
charge_account-Unpaid_example =
    charge_account-Unpaid turn now (pos 7) debtor (pos 99000000) expensive much-IsOwing
      funded-IsValid short

-- The dunning of eight days is over.
eight_days : leb_ℤ (pos 7) (days_failing 691201000 1000) ≡ true
unfolding days_failing
eight_days = refl

-- The fee of September is posted.
abbrev posted_firm : Firm
posted_firm = record firm {
  books = record funded {
    transactions =
        record {
          id = 1;
          type = Books.fee;
          idempotency_key = "fee:monthly:u1:2026-09";
          entries = [];
        }
        ∷ funded.transactions;
  };
}

posted : find_transaction (fee_key "u1" (period now)) posted_firm.books.transactions ≡ some 1
unfolding find_transaction str_eq
posted = refl

charge_account_again_example : (charge_account turn now (pos 7) debtor posted_firm).1 ≡ posted_firm
charge_account_again_example = charge_account_again turn now (pos 7) debtor posted_firm 1 posted
