-- ===== src/Settings/Service.antt =====
-- `get`, `getMany`, `all`, `set` and `parse` of apps/api/src/settings/settings.service.ts.
use tenzopay.Base.{
  ℕ, leb, ltb, ◌==◌, ℤ, String, str_eq, ◌<>◌, Option, none, some, Bool, true, false, not, ◌||◌,
  if◌then◌else◌, List, [], ◌∷◌, length, map,
}
use tenzopay.Effects.{
  Thrown, app_error, other, Result, ok, err, Action, pure, throw, transaction, ◌>>=◌, ◌>>◌,
}
use tenzopay.Queries.{read, write, with_result}
use tenzopay.Texts.{Text, trim, is_whole, read_digits, big_int, to_decimal}
use tenzopay.Settings.Registry.{
  SettingType, minor, integer, bps, AdminRole, super_admin, admin, finance, risk, support,
  SettingDefinition, Setting, Change, Office, registry,
}

-- `BY_KEY.get(key)`
unfoldable pub find_definition : String → List SettingDefinition → Option SettingDefinition
find_definition key [] = none
find_definition key (d ∷ rest) = if str_eq d.key key then some d else find_definition key rest

-- `setting.findUnique({ where: { key } })`, its value
unfoldable pub find_value : String → List Setting → Option Text
find_value key [] = none
find_value key (row ∷ rest) = if str_eq row.key key then some row.value else find_value key rest

abbrev pub value_or : Text → Option Text → Text
value_or default none = default
value_or default (some value) = value

abbrev pub validation : String → Thrown
validation message = app_error "VALIDATION_ERROR" message

-- `BigInt(value)`
abbrev pub to_bigint : Option ℤ → Result ℤ
to_bigint none = err (other "Cannot convert the value to a BigInt")
to_bigint (some n) = ok n

unfoldable pub parsed : SettingDefinition → Option Text → Result ℤ
parsed definition value = to_bigint (big_int (value_or definition.default value))

abbrev pub get_defined : Option Thrown → String → Option SettingDefinition → Action Office ℤ
get_defined fault key none = throw (validation ("Unknown setting: " <> key))
get_defined fault key (some definition) = read fault (λ s. find_value key s.settings) >>= λ value.
    with_result (parsed definition value) (λ n. pure n)

-- One value, parsed; the registry's default, if no row is there.
unfoldable pub get : Option Thrown → String → Action Office ℤ
get fault key = get_defined fault key (find_definition key registry)

abbrev pub cons_result : String → Result ℤ → Result (List (String × ℤ)) → Result (List (String × ℤ))
cons_result key (ok n) (ok rest) = ok ((key, n) ∷ rest)
cons_result key (err e) rest = err e
cons_result key (ok n) (err e) = err e

-- The loop of `getMany`: an unknown key is passed over.
unfoldable pub read_keys : List Setting → List String → Result (List (String × ℤ))
read_keys rows [] = ok []
read_keys rows (key ∷ keys) =
    let rest = read_keys rows keys in
    elim (find_definition key registry) [
      | none ↦ rest
      | some definition ↦ cons_result key (parsed definition (find_value key rows)) rest
    ]

unfoldable pub get_many : Option Thrown → List String → Action Office (List (String × ℤ))
get_many fault keys =
    read fault (λ s. read_keys s.settings keys) >>= λ values. with_result values (λ v. pure v)

-- A setting as the console lists it.
pub record Listed : Type 0 where
  pub definition : SettingDefinition
  pub value : Text
  pub is_default : Bool

abbrev is_none : Option Text → Bool
is_none none = true
is_none (some t) = false

abbrev pub list_one : List Setting → SettingDefinition → Listed
list_one rows d = record {
  definition = d;
  value = value_or d.default (find_value d.key rows);
  is_default = is_none (find_value d.key rows);
}

unfoldable pub all : Option Thrown → Action Office (List Listed)
all fault = read fault (λ s. map (list_one s.settings) registry)

abbrev rank : AdminRole → ℕ
rank super_admin = 0
rank admin = 1
rank finance = 2
rank risk = 3
rank support = 4

unfoldable pub role_eq : AdminRole → AdminRole → Bool
role_eq a b = rank a == rank b

unfoldable pub includes_role : AdminRole → List AdminRole → Bool
includes_role role [] = false
includes_role role (r ∷ rest) = role_eq r role || includes_role role rest

-- SUPER_ADMIN satisfies every requirement.
unfoldable pub may_change : AdminRole → SettingDefinition → Bool
may_change role definition = role_eq role super_admin || includes_role role definition.roles

abbrev pub text_of : Option Text → Text
text_of none = []
text_of (some t) = t

-- The greatest value that `parse` lets through, if there is one.
abbrev pub within_type : SettingType → ℕ → Bool
within_type minor n = true
within_type bps n = leb n 10000
within_type integer n = leb n 100000

abbrev pub too_large : SettingDefinition → String
too_large d = elim d.type [
  | bps ↦ d.label <> " cannot exceed 10000 bps (100%)."
  | _ ↦ d.label <> " is implausibly large."
]

abbrev type_name : SettingType → String
type_name minor = "minor"
type_name integer = "integer"
type_name bps = "bps"

abbrev pub not_whole : SettingDefinition → String
not_whole d = d.label <> " must be a whole, non-negative number (" <> type_name d.type <> ")."

abbrev pub check_value : SettingDefinition → Option ℕ → Result Text
check_value d none = err (other "Cannot convert the value to a BigInt")
check_value d (some n) =
    if within_type d.type n then ok (to_decimal n) else err (validation (too_large d))

unfoldable pub parse : SettingDefinition → Option Text → Result Text
parse d raw =
    let trimmed = trim (text_of raw) in
    if is_whole trimmed
    then check_value d (read_digits 10 0 trimmed)
    else err (validation (not_whole d))

-- `setting.upsert({ where: { key } })`
unfoldable pub upsert_setting : String → Text → String → List Setting → List Setting
upsert_setting key value by [] = record { key = key; value = value; updated_by_id = some by } ∷ []
upsert_setting key value by (row ∷ rest) =
    let more = upsert_setting key value by rest in
    if str_eq row.key key
    then record { key = key; value = value; updated_by_id = some by } ∷ rest
    else row ∷ more

-- The parameters of `set`.
pub record Order : Type 0 where
  pub admin_id : String
  pub admin_role : AdminRole
  pub key : String
  pub value : Option Text
  pub reason : Option Text

-- The queries of `set`.
pub data Query : Type 0 where
  find_previous upsert_row create_action create_log : Query

abbrev pub change_of : Order → Text → Text → Text → Change
change_of order before value reason = record {
  admin_id = order.admin_id;
  key = order.key;
  before = before;
  after = value;
  reason = reason;
}

-- The body of the transaction.
unfoldable pub record_change :
    Option Thrown
    → Option Thrown
    → Option Thrown
    → Order
    → Text
    → Text
    → Text
    → Action Office (Unit {0})
record_change setting_fault action_fault log_fault order reason value before =
    let change = change_of order before value reason in
    write setting_fault
      (λ s. record s { settings = upsert_setting order.key value order.admin_id s.settings })
    >> write action_fault (λ s. record s { admin_actions = change ∷ s.admin_actions })
    >> write log_fault (λ s. record s { audit_logs = change ∷ s.audit_logs })

unfoldable pub store_value :
    (Query → Option Thrown)
    → Order
    → SettingDefinition
    → Text
    → Text
    → Action Office (String × Text)
unfolding transaction
store_value fault order d reason value =
    read (fault find_previous) (λ s. value_or d.default (find_value order.key s.settings))
    >>= λ before.
        transaction (
          record_change (fault upsert_row) (fault create_action) (fault create_log) order reason
            value before)
        >>= λ u. pure (order.key, value)

-- `set` behind the look-up of the definition.
unfoldable pub set_defined :
    (Query → Option Thrown) → Order → Option SettingDefinition → Action Office (String × Text)
set_defined fault order none = throw (validation ("Unknown setting: " <> order.key))
set_defined fault order (some d) =
    let reason = trim (text_of order.reason) in
    if not (may_change order.admin_role d)
    then throw (validation ("Your role may not change " <> d.label <> "."))
    else if ltb (length reason) 3
    then throw (validation "A reason is required for every settings change.")
    else with_result (parse d order.value) (store_value fault order d reason)

unfoldable pub set : (Query → Option Thrown) → Order → Action Office (String × Text)
set fault order = set_defined fault order (find_definition order.key registry)
