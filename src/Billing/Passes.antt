-- ===== src/Billing/Passes.antt =====
-- A pass of `chargeDuePlans` (apps/api/src/billing/billing.service.ts) as a whole, and a turn for an
-- account that has paid.
use tenzopay.Base.{
  ℕ, ℤ, pos, leb_ℤ, String, Option, none, some, true, Bool-cases, inl, inr, length, ◌≡◌, refl, ap,
  ◌∙◌,
}
use tenzopay.Effects.{Thrown, Result, ok, err, continue}
use tenzopay.Queries.{read-P}
use tenzopay.Ledger.Books.{find_transaction}
use tenzopay.Ledger.CallSafety.{IsHonest}
use tenzopay.Settings.Service.{get}
use tenzopay.Settings.Reads.{get_same}
use tenzopay.Billing.State
use tenzopay.Billing.State.{
  UserPlan, starter, team, business, User, Firm, Turn, Instant, find_user, on_office,
}
use tenzopay.Billing.Charge.{
  period, fee_key, price_for, collect, charge_priced, charge_account, paying, Tally,
  charge_due_plans,
}
use tenzopay.Ledger.Invariant.{IsValid}
use tenzopay.Ledger.Safety.{Extends}
use tenzopay.Billing.Moved.{Moved, Passed, Passed-IsPreorder}
use tenzopay.Billing.Kept.{charge_each-IsKept}
use tenzopay.Billing.Overdue.{is_overdue, paying-All}

charge_due_plans-Passed :
    (users_fault : Option Thrown) (turns : String → Turn) (now : Instant) (days : ℤ) (s : Firm)
    → ((id : String) → IsHonest (turns id).weather)
    → get none "billing.dunning_days" s.office ≡ (ok days, s.office)
    → Passed
        (λ id. is_overdue now.time days id s.users ≡ true)
        s
        (charge_due_plans none users_fault turns now s).1
unfolding charge_due_plans
charge_due_plans-Passed users_fault turns now days s honest h =
    let Due = λ (id : String). is_overdue now.time days id s.users ≡ true in
    let tally : Tally = record {
      considered = length (paying 500 s.users);
      charged = 0;
      retried = 0;
      downgraded = 0;
    } in
    rw h (
      read-P (λ r. Passed Due s r.1) s users_fault _ _ (λ e. Passed-IsPreorder.same s)
        ((charge_each-IsKept turns now days honest (paying 500 s.users) tally
            (paying-All now.time days 500 s.users)).leaves
          s))

-- A pass of the plan fees over valid books and settings that give the days of grace, with any failing
-- queries and any honest others: the books stay valid and lose no posting, every user is still there with
-- the same status, and a user's plan is the same as before, or is Starter where the table had a paying,
-- open account of that id whose dunning had lasted the days of grace.
pub charge_due_plans-Keeps :
    (users_fault : Option Thrown) (turns : String → Turn) (now : Instant) (days : ℤ) (s : Firm)
    (id : String) (u : User)
    → ((id : String) → IsHonest (turns id).weather)
    → get none "billing.dunning_days" s.office ≡ (ok days, s.office)
    → IsValid s.books
    → find_user id s.users ≡ some u
    → let t = (charge_due_plans none users_fault turns now s).1 in
      IsValid t.books
      × Extends s.books t.books
      × ((w : User) × (find_user id t.users ≡ some w)
          × Moved (λ k. is_overdue now.time days k s.users ≡ true) u w)
charge_due_plans-Keeps users_fault turns now days s id u honest h v found =
    let p = charge_due_plans-Passed users_fault turns now days s honest h in
    let (valid, kept) = p.books v in (valid, kept, p.users id u found)

-- The state alone.
left : (turn : Turn) (plan : UserPlan) (s : Firm) → (price_for turn plan s).1 ≡ s
unfolding price_for
left turn team s = ap (λ o. record s { office = o }) (get_same _ "fee.plan.team" s.office)
left turn business s = ap (λ o. record s { office = o }) (get_same _ "fee.plan.business" s.office)
left turn starter s = refl

module _ (turn : Turn) (now : Instant) (days : ℤ) (u : User) (id : ℕ) where
  priced_again :
      (price : ℤ) (s : Firm)
      → find_transaction (fee_key u.id (period now)) s.books.transactions ≡ some id
      → (charge_priced turn now days u price s).1 ≡ s
  unfolding charge_priced collect
  priced_again price s h = elim (Bool-cases (leb_ℤ price (pos 0))) [
    | inl free ↦ rw (free, charge_priced) refl
    | inr priced ↦
        rw (priced, charge_priced)
          (read-P (λ r. r.1 ≡ s) s (turn.fault State.find_existing) _
            (collect turn now days u price) (λ e. refl) (rw h refl))
  ]

  after_price :
      (r : Result ℤ × Firm) (s : Firm)
      → r.1 ≡ s
      → find_transaction (fee_key u.id (period now)) s.books.transactions ≡ some id
      → (continue (charge_priced turn now days u) r).1 ≡ s
  after_price (ok price, t) s e h =
      let k : find_transaction (fee_key u.id (period now)) t.books.transactions ≡ some id =
        ap (λ (x : Firm). find_transaction (fee_key u.id (period now)) x.books.transactions) e
        ∙ h in
      priced_again price t k ∙ e
  after_price (err x, t) s e h = e

-- An account whose fee of the month is posted is left alone by every later turn of that month, with any
-- failing queries: the ledger, the users, the logs and the notices are as before.
pub charge_account_again :
    (turn : Turn) (now : Instant) (days : ℤ) (u : User) (s : Firm) (id : ℕ)
    → find_transaction (fee_key u.id (period now)) s.books.transactions ≡ some id
    → (charge_account turn now days u s).1 ≡ s
unfolding charge_account
charge_account_again turn now days u s id h =
    after_price turn now days u id (price_for turn u.plan s) s (left turn u.plan s) h
