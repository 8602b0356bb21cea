-- ===== src/Billing/State.antt =====
-- The tables of the plan fees (apps/api/prisma/schema.prisma), and what a pass of
-- apps/api/src/billing/billing.service.ts meets.
use tenzopay.Base.{ℕ, String, str_eq, Option, none, some, if◌then◌else◌, List, [], ◌∷◌}
use tenzopay.Effects.{Thrown, Result}
use tenzopay.Ledger.Books.{Books}
use tenzopay.Ledger.Methods.{Weather}
use tenzopay.Asa.State.{UserStatus}
use tenzopay.Settings.Registry.{Office}

pub data UserPlan : Type 0 where
  starter team business : UserPlan

-- A user, as far as the plan goes; the time is in milliseconds.
pub record User : Type 0 where
  pub id : String
  pub plan : UserPlan
  pub status : UserStatus
  pub plan_dunning_since : Option ℕ

-- An admin action and an audit log of a plan; the actor of a downgrade is the system.
pub record PlanLog : Type 0 where
  pub admin_id : Option String
  pub user_id : String
  pub before : UserPlan
  pub after : UserPlan

pub record Notice : Type 0 where
  pub user_id : String
  pub title : String

-- The ledger, the settings and the users.
pub record Firm : Type 0 where
  pub books : Books
  pub office : Office
  pub users : List User
  pub admin_actions : List PlanLog
  pub audit_logs : List PlanLog
  pub notices : List Notice

-- The queries outside the ledger.
pub data Query : Type 0 where
  read_price find_existing clear_dunning notify downgrade log_downgrade start_dunning : Query
  find_user_row change_plan create_action create_log : Query

-- What the turn of one account meets.
pub record Turn : Type 0 where
  pub weather : Weather
  pub fault : Query → Option Thrown

-- A `Date`: its time, the digits of its UTC year, and its UTC month from 0 to 11.
pub record Instant : Type 0 where
  pub time : ℕ
  pub year : String
  pub month : ℕ

-- `user.findUnique({ where: { id } })`
unfoldable pub find_user : String → List User → Option User
find_user id [] = none
find_user id (u ∷ rest) = if str_eq u.id id then some u else find_user id rest

-- `user.update({ where: { id } })`
unfoldable pub update_user : String → (User → User) → List User → List User
update_user id f [] = []
update_user id f (u ∷ rest) =
    let more = update_user id f rest in if str_eq u.id id then f u ∷ rest else u ∷ more

abbrev pub with_users : (List User → List User) → Firm → Firm
with_users f s = record s { users = f s.users }

abbrev pub on_books : {A : Type 0} → Result A × Books → Firm → Result A × Firm
on_books (r, b) s = (r, record s { books = b })

abbrev pub on_office : {A : Type 0} → Result A × Office → Firm → Result A × Firm
on_office (r, o) s = (r, record s { office = o })
