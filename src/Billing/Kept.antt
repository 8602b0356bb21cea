-- ===== src/Billing/Kept.antt =====
-- Every step of a pass of `chargeDuePlans` (apps/api/src/billing/billing.service.ts) stands in the relation
-- of Billing/Moved.antt.
use tenzopay.Base.{
  ℕ, ℤ, pos, leb_ℤ, String, Option, none, some, Bool, true, false, inl, inr, if◌then◌else◌, List,
  [], ◌∷◌, All, ◌≡◌, refl, sym, subst,
}
use tenzopay.Effects.{
  Thrown, insufficient_balance, ledger_imbalance, prisma_known, app_error, other, Result, ok, err,
  Action,
}
use tenzopay.Queries.{write}
use tenzopay.Actions.{
  IsKept, bind-IsKept, pure-IsKept, throw-IsKept, read-IsKept, write-IsKept, write_quietly-IsKept,
  catch-IsKept, if-IsKept,
}
use tenzopay.Ledger.Books
use tenzopay.Ledger.Books.{Books}
use tenzopay.Ledger.Invariant.{IsValid}
use tenzopay.Ledger.Safety.{Extends-refl}
use tenzopay.Ledger.CallSafety.{IsHonest, Final, drifted}
use tenzopay.Ledger.ExactlyOnce.{charge_fee-Final}
use tenzopay.Settings.Registry.{Office}
use tenzopay.Billing.State
use tenzopay.Billing.State.{
  UserPlan, starter, team, business, User, Firm, Turn, Instant, find_user, update_user, with_users,
  on_books, on_office,
}
use tenzopay.Billing.Charge.{
  period, fee_key, price_for, days_failing, since_or, is_dunned, tell, set_dunning, to_starter,
  settle_dunning, take_fee, pay, drop_plan, keep_trying, unpaid, collect, charge_priced,
  charge_account, count, Tally, charge_each,
}
use tenzopay.Billing.Moved.{Moved, Moved-refl, Passed, same_users, Passed-IsPreorder, update-find}

module _ {Due : String → Type 0} where
  pub write_user-IsKept :
      (fault : Option Thrown) (id : String) (f : User → User)
      → ((x : User) → x.id ≡ id → Moved Due x (f x))
      → IsKept (Passed Due) (write fault (with_users (update_user id f)))
  write_user-IsKept fault id f p = write-IsKept fault (with_users (update_user id f)) (λ s. record {
    books = λ v. (v, Extends-refl s.books);
    users = λ whom u h. update-find id f s.users whom u p h;
  })

  tell-IsKept : (turn : Turn) (user title : String) → IsKept (Passed Due) (tell turn user title)
  unfolding tell
  tell-IsKept turn user title = write_quietly-IsKept _ _ (λ s. same_users refl refl)

  office_kept : {A : Type 0} (r : Result A × Office) (s : Firm) → Passed Due s (on_office r s).1
  office_kept (x, o) s = same_users refl refl

  office-IsKept :
      {A : Type 0} (m : Action Office A)
      → IsKept (Passed Due) (λ (s : Firm). on_office (m s.office) s)
  office-IsKept m = record { leaves = λ s. office_kept (m s.office) s }

  price_for-IsKept : (turn : Turn) (plan : UserPlan) → IsKept (Passed Due) (price_for turn plan)
  unfolding price_for
  price_for-IsKept turn team = office-IsKept _
  price_for-IsKept turn business = office-IsKept _
  price_for-IsKept turn starter = pure-IsKept (pos 0)

  module _ (turn : Turn) (honest : IsHonest turn.weather) where
    called :
        (key : String) (s : Firm) (r : Result ℕ × Books)
        → (IsValid s.books → Final turn.weather s.books key (λ n. n) r)
        → Passed Due s (on_books r s).1
    called key s (ok n, b) g = record {
      books = λ v. let x = g v in (x.valid, x.extends);
      users = λ id u h. (u, h, Moved-refl u);
    }
    called key s (err e, b) g = record {
      books = λ v. let d = drifted turn.weather honest s.books v (g v) in (d.valid, d.extends);
      users = λ id u h. (u, h, Moved-refl u);
    }

    take_fee-IsKept :
        (p : String) (price : ℤ) (u : User) → IsKept (Passed Due) (take_fee turn p price u)
    unfolding take_fee
    take_fee-IsKept p price u = record {
      leaves = λ s. called (fee_key u.id p) s _ (λ v.
          charge_fee-Final turn.weather honest s.books v u.id (fee_key u.id p) price Books.monthly
            "USDT");
    }

    dunning-IsKept :
        (fault : Option Thrown) (id : String) (since : Option ℕ)
        → IsKept (Passed Due) (write fault (with_users (update_user id (set_dunning since))))
    dunning-IsKept fault id since =
        write_user-IsKept fault id (set_dunning since)
          (λ x same. record { id = refl; status = refl; plan = inl refl })

    settle_dunning-IsKept : (u : User) → IsKept (Passed Due) (settle_dunning turn u)
    unfolding settle_dunning
    settle_dunning-IsKept u =
        if-IsKept _ _ (is_dunned u) (dunning-IsKept (turn.fault State.clear_dunning) u.id none)
          (pure-IsKept tt)

    pay-IsKept : (p : String) (price : ℤ) (u : User) → IsKept (Passed Due) (pay turn p price u)
    unfolding pay
    pay-IsKept p price u =
        bind-IsKept _ _
          (bind-IsKept _ _
            (bind-IsKept _ _ (take_fee-IsKept p price u) (λ n. settle_dunning-IsKept u))
            (λ x. tell-IsKept turn u.id "Plan fee charged"))
          (λ x. pure-IsKept _)

    drop_plan-IsKept : (u : User) → Due u.id → IsKept (Passed Due) (drop_plan turn u)
    unfolding drop_plan
    drop_plan-IsKept u due =
        bind-IsKept _ _
          (bind-IsKept _ _
            (bind-IsKept _ _
              (write_user-IsKept (turn.fault State.downgrade) u.id to_starter (λ x same. record {
                id = refl;
                status = refl;
                plan = inr (refl, subst Due (sym same) due);
              }))
              (λ x. write-IsKept _ _ (λ s. same_users refl refl)))
            (λ x. tell-IsKept turn u.id _))
          (λ x. pure-IsKept _)

    keep_trying-IsKept : (now : ℕ) (u : User) → IsKept (Passed Due) (keep_trying turn now u)
    unfolding keep_trying
    keep_trying-IsKept now u =
        bind-IsKept _ _
          (if-IsKept _ _ (is_dunned u) (pure-IsKept tt) (
            bind-IsKept _ _ (dunning-IsKept (turn.fault State.start_dunning) u.id (some now))
              (λ x. tell-IsKept turn u.id _)))
          (λ x. pure-IsKept _)

    module _ (now : Instant) (days : ℤ) (u : User)
        (due : leb_ℤ days (days_failing now.time (since_or now.time u.plan_dunning_since)) ≡ true
          → Due u.id) where
      choose :
          (b : Bool)
          → (b ≡ true → Due u.id)
          → IsKept (Passed Due) (if b then drop_plan turn u else keep_trying turn now.time u)
      choose true d = drop_plan-IsKept u (d refl)
      choose false d = keep_trying-IsKept now.time u

      unpaid-IsKept : (e : Thrown) → IsKept (Passed Due) (unpaid turn now.time days u e)
      unpaid-IsKept (insufficient_balance a r) = choose _ due
      unpaid-IsKept (ledger_imbalance d) = throw-IsKept _
      unpaid-IsKept (prisma_known a m x) = throw-IsKept _
      unpaid-IsKept (app_error a x) = throw-IsKept _
      unpaid-IsKept (other x) = throw-IsKept _

      collect-IsKept :
          (price : ℤ) (o : Option ℕ) → IsKept (Passed Due) (collect turn now days u price o)
      unfolding collect
      collect-IsKept price (some existing) = pure-IsKept _
      collect-IsKept price none = catch-IsKept _ _ (pay-IsKept (period now) price u) unpaid-IsKept

      priced-IsKept : (price : ℤ) → IsKept (Passed Due) (charge_priced turn now days u price)
      unfolding charge_priced
      priced-IsKept price =
          if-IsKept _ _ (leb_ℤ price (pos 0)) (pure-IsKept _)
            (bind-IsKept _ _ (read-IsKept _ _) (collect-IsKept price))

      pub charge_account-IsKept : IsKept (Passed Due) (charge_account turn now days u)
      unfolding charge_account
      charge_account-IsKept = bind-IsKept _ _ (price_for-IsKept turn u.plan) priced-IsKept

  pub charge_each-IsKept :
      (turns : String → Turn) (now : Instant) (days : ℤ)
      → ((id : String) → IsHonest (turns id).weather)
      → (us : List User) (tally : Tally)
      → All
          (λ u.
            leb_ℤ days (days_failing now.time (since_or now.time u.plan_dunning_since)) ≡ true
            → Due u.id)
          us
      → IsKept (Passed Due) (charge_each turns now days us tally)
  unfolding charge_each
  charge_each-IsKept turns now days honest [] tally due = pure-IsKept tally
  charge_each-IsKept turns now days honest (u ∷ us) tally due =
      bind-IsKept _ _ (charge_account-IsKept (turns u.id) (honest u.id) now days u due.0)
        (λ step. charge_each-IsKept turns now days honest us (count step tally) due.1)
