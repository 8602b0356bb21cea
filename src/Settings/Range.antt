-- ===== src/Settings/Range.antt =====
-- The values of the settings stay readable and within their types
-- (apps/api/src/settings/settings.service.ts).
use tenzopay.Base.{
  ℕ, String, str_eq, str_eq_iff, Option, none, some, Bool, true, false, Bool-cases, inl, inr,
  if◌then◌else◌, List, [], ◌∷◌, pos, ◌&&◌, ◌≡◌, ◌≢◌, refl, ap, ◌∙◌,
}
use tenzopay.Effects.{Thrown, Result, ok, err, pure}
use tenzopay.Queries.{read, with_result}
use tenzopay.Texts.{Text, trim, is_whole, read_digits, big_int, to_decimal}
use tenzopay.Texts.Decimal.{big_int-to_decimal}
use tenzopay.Settings.Registry.{SettingDefinition, Office, registry}
use tenzopay.Settings.Service.{
  find_definition, find_value, to_bigint, parsed, get_defined, get, text_of, within_type,
  check_value, parse, not_whole, too_large, validation, Order, Query, set,
}
use tenzopay.Settings.Change.{Outcome, ReadsBack, set-Outcome}

-- The print of a number that the type allows.
pub record IsValue (d : SettingDefinition) (value : Text) : Type 0 where
  pub number : ℕ
  pub printed : value ≡ to_decimal number
  pub within : within_type d.type number ≡ true

err_not_ok : {A : Type 0} {x : Thrown} {a : A} → err x ≢ ok a
err_not_ok h = cc (h)

checked :
    (d : SettingDefinition) (o : Option ℕ) (value : Text)
    → check_value d o ≡ ok value
    → (v : IsValue d value) × (o ≡ some v.number)
checked d none value h = cc (h)
checked d (some n) value h = elim (Bool-cases (within_type d.type n)) [
  | inl within ↦
      let e : Result.ok (to_decimal n) ≡ ok value = rw within at h in
      let p : value ≡ to_decimal n = cc (e) in
      (record { number = n; printed = p; within = within }, refl)
  | inr over ↦
      let e : err (validation (too_large d)) ≡ ok value = rw over at h in absurd (err_not_ok e)
]

-- `parse` accepts the print of a number within the type, and nothing else.
pub parse-IsValue :
    (d : SettingDefinition) (raw : Option Text) (value : Text)
    → parse d raw ≡ ok value
    → (v : IsValue d value) × (read_digits 10 0 (trim (text_of raw)) ≡ some v.number)
unfolding parse
parse-IsValue d raw value h = elim (Bool-cases (is_whole (trim (text_of raw)))) [
  | inl whole ↦ checked d (read_digits 10 0 (trim (text_of raw))) value (rw whole at h)
  | inr others ↦
      let e : err (validation (not_whole d)) ≡ ok value = rw others at h in absurd (err_not_ok e)
]

parsed-number :
    (d : SettingDefinition) (value : Text) (v : IsValue d value)
    → parsed d (some value) ≡ ok (pos v.number)
unfolding parsed
parsed-number d value v =
    ap (λ t. to_bigint (big_int t)) v.printed ∙ ap to_bigint (big_int-to_decimal v.number)

-- A read of a key whose row and definition are known.
get_row :
    (key : String) (d : SettingDefinition) (o : Option Text) (n : ℕ) (s : Office)
    → find_definition key registry ≡ some d
    → find_value key s.settings ≡ o
    → parsed d o ≡ ok (pos n)
    → get none key s ≡ (ok (pos n), s)
unfolding get read
get_row key d o n s h row p =
    ap (λ x. get_defined none key x s) h
    ∙ ap (λ x. with_result (parsed d x) (λ m. pure m) s) row
    ∙ ap (λ x. with_result x (λ m. pure m) s) p

str_eq_self : (key : String) → str_eq key key ≡ true
str_eq_self key = (str_eq_iff key key).1 refl

module _ (order : Order) (d : SettingDefinition) (s : Office)
    (known : find_definition order.key registry ≡ some d) where
  Outcome-ReadsBack :
      (r : Result (String × Text) × Office) → Outcome order d s r → ReadsBack order r
  Outcome-ReadsBack (err e, t) o = tt
  Outcome-ReadsBack (ok (key, value), t) (same, p, rows, actions, logs, allowed, long) =
      let (v, typed) = parse-IsValue d order.value value p in
      let row : find_value order.key t.settings ≡ some value =
        rows order.key
        ∙ ap (λ b. if b then some value else find_value order.key s.settings)
            (str_eq_self order.key) in
      (
        v.number,
        typed,
        get_row order.key d (some value) v.number t known row (parsed-number d value v),
      )

-- A change of a registered setting that returns, with any failing queries, is read back by `get` as the
-- number whose digits were typed, blanks around them aside.
pub set-ReadsBack :
    (fault : Query → Option Thrown) (order : Order) (d : SettingDefinition) (s : Office)
    → find_definition order.key registry ≡ some d
    → ReadsBack order (set fault order s)
set-ReadsBack fault order d s known =
    Outcome-ReadsBack order d s known (set fault order s) (set-Outcome fault order d s known)

-- Every row is of a registered key, with a value of its type.
pub record IsInRange (s : Office) : Type 0 where
  pub row :
      (key : String) (value : Text) (d : SettingDefinition)
      → find_value key s.settings ≡ some value
      → find_definition key registry ≡ some d
      → IsValue d value

-- The registry's default is a value of its type.
abbrev in_type : SettingDefinition → Option ℕ → Bool
in_type d none = false
in_type d (some n) = is_whole d.default && within_type d.type n

unfoldable are_defaults_ok : List SettingDefinition → Bool
are_defaults_ok [] = true
are_defaults_ok (d ∷ rest) = in_type d (read_digits 10 0 d.default) && are_defaults_ok rest
