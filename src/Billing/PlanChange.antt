-- ===== src/Billing/PlanChange.antt =====
-- What a change of a plan leaves (`setPlan` of apps/api/src/billing/billing.service.ts).
use tenzopay.Base.{String, str_eq, Option, none, some, if◌then◌else◌, ◌∷◌, ◌≡◌}
use tenzopay.Effects.{Result, ok, err}
use tenzopay.Billing.State
use tenzopay.Billing.State.{UserPlan, User, Firm, find_user}
use tenzopay.Billing.Plans.{PlanOrder, to_plan, plan_log}

-- All of the change, or nothing.
abbrev pub Changed : PlanOrder → Option User → Firm → Result (String × UserPlan) × Firm → Type 0
Changed order (some u) s (ok r, t) =
    (r ≡ (order.user_id, order.plan))
    × ((whom : String)
        → find_user whom t.users ≡ (
            if str_eq order.user_id whom
            then some (to_plan order.plan u)
            else find_user whom s.users))
    × (t.admin_actions ≡ plan_log order u ∷ s.admin_actions)
    × (t.audit_logs ≡ plan_log order u ∷ s.audit_logs)
    × (t.books ≡ s.books)
Changed order none s (ok r, t) = ⊥
Changed order u s (err e, t) = t ≡ s
