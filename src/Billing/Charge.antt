-- ===== src/Billing/Charge.antt =====
-- `period`, `priceFor` and `chargeDuePlans` of apps/api/src/billing/billing.service.ts.
use tenzopay.Base.{
  ℕ, zero, suc, ◌-◌, ◌/◌, leb, ◌==◌, ℤ, pos, negsuc, leb_ℤ, String, ◌<>◌, Option, none, some, Bool,
  true, false, not, ◌&&◌, if◌then◌else◌, List, [], ◌∷◌, length,
}
use tenzopay.Effects.{Thrown, insufficient_balance, Action, pure, throw, try_catch, ◌>>=◌, ◌>>◌}
use tenzopay.Queries.{read, write, write_quietly}
use tenzopay.Ledger.Books
use tenzopay.Ledger.Books.{find_transaction}
use tenzopay.Ledger.Methods.{charge_fee}
use tenzopay.Asa.State.{user_closed}
use tenzopay.Settings.Service.{get}
use tenzopay.Billing.State.{
  UserPlan, starter, team, business, User, Firm, read_price, find_existing, clear_dunning, notify,
  downgrade, log_downgrade, start_dunning, Turn, Instant, update_user, with_users, on_books,
  on_office,
}

-- `String(month + 1).padStart(2, '0')`
abbrev pub month_text : ℕ → String
month_text m =
    if m == 0
    then "01"
    else if m == 1
    then "02"
    else if m == 2
    then "03"
    else if m == 3
    then "04"
    else if m == 4
    then "05"
    else if m == 5
    then "06"
    else if m == 6
    then "07"
    else if m == 7
    then "08"
    else if m == 8
    then "09"
    else if m == 9
    then "10"
    else if m == 10
    then "11"
    else "12"

-- The billing period that a moment belongs to.
abbrev pub period : Instant → String
period now = now.year <> "-" <> month_text now.month

abbrev pub fee_key : String → String → String
fee_key user p = "fee:monthly:" <> user <> ":" <> p

unfoldable pub price_for : Turn → UserPlan → Action Firm ℤ
price_for turn team s = on_office (get (turn.fault read_price) "fee.plan.team" s.office) s
price_for turn business s = on_office (get (turn.fault read_price) "fee.plan.business" s.office) s
price_for turn starter s = pure (pos 0) s

-- `Math.floor((now - since) / 86_400_000)`
unfoldable pub days_failing : ℕ → ℕ → ℤ
days_failing now since =
    if leb since now then pos ((now - since) / 86400000) else negsuc ((since - now - 1) / 86400000)

abbrev pub since_or : ℕ → Option ℕ → ℕ
since_or now none = now
since_or now (some since) = since

abbrev pub is_dunned : User → Bool
is_dunned u = elim u.plan_dunning_since [ some t ↦ true | none ↦ false ]

-- What a turn of the loop adds to.
pub data Step : Type 0 where
  skipped charged retried downgraded : Step

unfoldable pub tell : Turn → String → String → Action Firm (Unit {0})
tell turn user title =
    write_quietly (turn.fault notify)
      (λ s. record s { notices = record { user_id = user; title = title } ∷ s.notices })

abbrev pub set_dunning : Option ℕ → User → User
set_dunning since u = record u { plan_dunning_since = since }

abbrev pub to_starter : User → User
to_starter u = record u { plan = starter; plan_dunning_since = none }

-- The dunning ends with the payment.
unfoldable pub settle_dunning : Turn → User → Action Firm (Unit {0})
settle_dunning turn u =
    if is_dunned u
    then write (turn.fault clear_dunning) (with_users (update_user u.id (set_dunning none)))
    else pure tt

unfoldable pub take_fee : Turn → String → ℤ → User → Action Firm ℕ
take_fee turn p price u s =
    on_books (charge_fee turn.weather u.id (fee_key u.id p) price Books.monthly "USDT" s.books) s

-- The body of the `try`.
unfoldable pub pay : Turn → String → ℤ → User → Action Firm Step
pay turn p price u =
    take_fee turn p price u
    >> settle_dunning turn u
    >> tell turn u.id "Plan fee charged"
    >> pure charged

unfoldable pub drop_plan : Turn → User → Action Firm Step
drop_plan turn u =
    write (turn.fault downgrade) (with_users (update_user u.id to_starter))
    >> write (turn.fault log_downgrade) (λ s. record s {
      audit_logs =
          record { admin_id = none; user_id = u.id; before = u.plan; after = starter }
          ∷ s.audit_logs;
    })
    >> tell turn u.id "Your plan has been changed to Starter"
    >> pure downgraded

unfoldable pub keep_trying : Turn → ℕ → User → Action Firm Step
keep_trying turn now u =
    (if is_dunned u
      then pure tt
      else write (turn.fault start_dunning) (with_users (update_user u.id (set_dunning (some now))))
        >> tell turn u.id "We could not collect your plan fee")
    >> pure retried

-- The `catch`: only a balance that does not cover the price is handled.
abbrev pub unpaid : Turn → ℕ → ℤ → User → Thrown → Action Firm Step
unpaid turn now dunning_days u (insufficient_balance available requested) =
    if leb_ℤ dunning_days (days_failing now (since_or now u.plan_dunning_since))
    then drop_plan turn u
    else keep_trying turn now u
unpaid turn now dunning_days u e = throw e

-- A turn behind the price.
unfoldable pub collect : Turn → Instant → ℤ → User → ℤ → Option ℕ → Action Firm Step
unfolding try_catch
collect turn now dunning_days u price (some existing) = pure skipped
collect turn now dunning_days u price none =
    try_catch (pay turn (period now) price u) (unpaid turn now.time dunning_days u)

unfoldable pub charge_priced : Turn → Instant → ℤ → User → ℤ → Action Firm Step
charge_priced turn now dunning_days u price =
    if leb_ℤ price (pos 0)
    then pure skipped
    else read (turn.fault find_existing)
        (λ s. find_transaction (fee_key u.id (period now)) s.books.transactions)
      >>= collect turn now dunning_days u price

unfoldable pub charge_account : Turn → Instant → ℤ → User → Action Firm Step
charge_account turn now dunning_days u =
    price_for turn u.plan >>= charge_priced turn now dunning_days u

abbrev pub is_paying : User → Bool
is_paying u =
    not (elim u.plan [ starter ↦ true | _ ↦ false ])
    && not (elim u.status [ user_closed ↦ true | _ ↦ false ])

-- The accounts that a pass takes.
unfoldable pub paying : ℕ → List User → List User
paying zero users = []
paying (suc limit) [] = []
paying (suc limit) (u ∷ rest) =
    let taken = paying limit rest in
    let passed = paying (suc limit) rest in if is_paying u then u ∷ taken else passed

pub record Tally : Type 0 where
  pub considered : ℕ
  pub charged : ℕ
  pub retried : ℕ
  pub downgraded : ℕ

abbrev pub count : Step → Tally → Tally
count skipped t = t
count charged t = record t { charged = suc t.charged }
count retried t = record t { retried = suc t.retried }
count downgraded t = record t { downgraded = suc t.downgraded }

unfoldable pub charge_each : (String → Turn) → Instant → ℤ → List User → Tally → Action Firm Tally
charge_each turns now dunning_days [] tally = pure tally
charge_each turns now dunning_days (u ∷ rest) tally =
    charge_account (turns u.id) now dunning_days u >>= λ step.
    charge_each turns now dunning_days rest (count step tally)

-- Charge every account that owes for the current month.
unfoldable pub charge_due_plans :
    Option Thrown → Option Thrown → (String → Turn) → Instant → Action Firm Tally
charge_due_plans days_fault users_fault turns now =
    (λ s. on_office (get days_fault "billing.dunning_days" s.office) s) >>= λ dunning_days.
    read users_fault (λ s. paying 500 s.users) >>= λ accounts.
    charge_each turns now dunning_days accounts
      (record { considered = length accounts; charged = 0; retried = 0; downgraded = 0 })
