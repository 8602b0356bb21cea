-- ===== src/Billing/Plans.antt =====
-- `setPlan` of apps/api/src/billing/billing.service.ts.
use tenzopay.Base.{String, Option, none, some, ◌∷◌}
use tenzopay.Effects.{Thrown, other, Action, pure, throw, transaction, ◌>>=◌, ◌>>◌}
use tenzopay.Queries.{read, write}
use tenzopay.Billing.State.{
  UserPlan, User, PlanLog, Firm, find_user_row, change_plan, create_action, create_log, Query,
  find_user, update_user, with_users,
}

-- The parameters of `setPlan`; the reason, which nothing reads, is left out.
pub record PlanOrder : Type 0 where
  pub admin_id : String
  pub user_id : String
  pub plan : UserPlan

abbrev pub to_plan : UserPlan → User → User
to_plan plan u = record u { plan = plan; plan_dunning_since = none }

abbrev pub plan_log : PlanOrder → User → PlanLog
plan_log order u = record {
  admin_id = some order.admin_id;
  user_id = order.user_id;
  before = u.plan;
  after = order.plan;
}

-- The body of the transaction.
unfoldable pub write_plan :
    Option Thrown → Option Thrown → Option Thrown → PlanOrder → User → Action Firm (Unit {0})
write_plan plan_fault action_fault log_fault order u =
    write plan_fault (with_users (update_user order.user_id (to_plan order.plan)))
    >> write action_fault (λ s. record s { admin_actions = plan_log order u ∷ s.admin_actions })
    >> write log_fault (λ s. record s { audit_logs = plan_log order u ∷ s.audit_logs })

unfoldable pub set_found :
    (Query → Option Thrown) → PlanOrder → Option User → Action Firm (String × UserPlan)
unfolding transaction
set_found fault order none = throw (other "User not found")
set_found fault order (some u) =
    transaction (write_plan (fault change_plan) (fault create_action) (fault create_log) order u)
    >> pure (order.user_id, order.plan)

unfoldable pub set_plan : (Query → Option Thrown) → PlanOrder → Action Firm (String × UserPlan)
set_plan fault order =
    read (fault find_user_row) (λ s. find_user order.user_id s.users) >>= set_found fault order
