-- ===== src/Settings/Change.antt =====
-- What a change of a setting leaves (`set` of apps/api/src/settings/settings.service.ts).
use tenzopay.Base.{
  ℕ, ◌≤◌, ltb, String, str_eq, str_eq_iff, Option, none, some, true, Bool-cases, inl, inr,
  if◌then◌else◌, List, [], ◌∷◌, length, pos, ◌≡◌, refl, sym, subst, arith,
}
use tenzopay.Effects.{Thrown, Result, ok, err, pure, continue, transaction}
use tenzopay.Queries.{write, read-P, with_result-P}
use tenzopay.Texts.{Text, trim, read_digits}
use tenzopay.Settings.Registry.{SettingDefinition, Setting, Office, registry}
use tenzopay.Settings.Service.{
  find_definition, find_value, value_or, get, may_change, text_of, parse, upsert_setting, Order,
  Query, find_previous, upsert_row, create_action, create_log, change_of, record_change,
  store_value, set_defined, set,
}

find_upserted :
    (key : String) (value : Text) (by other : String) (rows : List Setting)
    → find_value other (upsert_setting key value by rows)
      ≡ (if str_eq key other then some value else find_value other rows)
unfolding find_value upsert_setting
find_upserted key value by other [] = ground arith
find_upserted key value by other (row ∷ rows) = ground (
  arith,
  str_eq_iff row.key key,
  str_eq_iff row.key other,
  str_eq_iff key other,
  find_upserted key value by other rows,
)

-- What was asked for, and what it leaves: all of it, or nothing.
abbrev pub Outcome : Order → SettingDefinition → Office → Result (String × Text) × Office → Type 0
Outcome order d s (ok (key, value), t) =
    let before = value_or d.default (find_value order.key s.settings) in
    let change = change_of order before value (trim (text_of order.reason)) in
    (key ≡ order.key)
    × (parse d order.value ≡ ok value)
    × ((other : String)
        → find_value other t.settings
          ≡ (if str_eq order.key other then some value else find_value other s.settings))
    × (t.admin_actions ≡ change ∷ s.admin_actions)
    × (t.audit_logs ≡ change ∷ s.audit_logs)
    × (may_change order.admin_role d ≡ true)
    × (3 ≤ length change.reason)
Outcome order d s (err e, t) = t ≡ s

module _ (order : Order) (d : SettingDefinition) (s : Office)
    (allowed : may_change order.admin_role d ≡ true)
    (explained : 3 ≤ length (trim (text_of order.reason))) where
  written :
      (f g h : Option Thrown) (value : Text)
      → parse d order.value ≡ ok value
      → Outcome order d s (
          continue
            (λ u. pure (order.key, value))
            (transaction
              (record_change f g h order
                (trim (text_of order.reason))
                value
                (value_or d.default (find_value order.key s.settings)))
              s))
  unfolding transaction record_change write
  written (some e) g h value p = refl
  written none (some e) h value p = refl
  written none none (some e) value p = refl
  written none none none value p = (
    refl,
    p,
    λ other. find_upserted order.key value order.admin_id other s.settings,
    refl,
    refl,
    allowed,
    explained,
  )

  stored :
      (fault : Query → Option Thrown) (value : Text)
      → parse d order.value ≡ ok value
      → Outcome order d s (store_value fault order d (trim (text_of order.reason)) value s)
  unfolding store_value
  stored fault value h =
      read-P (Outcome order d s) s (fault find_previous) _ _ (λ e. refl)
        (written (fault upsert_row) (fault create_action) (fault create_log) value h)

pub set-Outcome :
    (fault : Query → Option Thrown) (order : Order) (d : SettingDefinition) (s : Office)
    → find_definition order.key registry ≡ some d
    → Outcome order d s (set fault order s)
unfolding set set_defined
set-Outcome fault order d s h =
    subst (λ o. Outcome order d s (set_defined fault order o s)) (sym h)
      (elim (Bool-cases (may_change order.admin_role d)) [
        | inr denied ↦ rw (denied, set_defined) refl
        | inl allowed ↦ elim (Bool-cases (ltb (length (trim (text_of order.reason))) 3)) [
          | inl short ↦ rw (allowed, short, set_defined) refl
          | inr long ↦
              rw (allowed, long, set_defined)
                (with_result-P (Outcome order d s) s (parse d order.value) _ (λ e. refl)
                  (λ value p. stored order d s allowed (ground arith) fault value p))
        ]
      ])

-- A value that was accepted reads back as the number that it was typed as.
abbrev pub ReadsBack : Order → Result (String × Text) × Office → Type 0
ReadsBack order (ok r, t) =
    (n : ℕ) × (read_digits 10 0 (trim (text_of order.value)) ≡ some n)
    × (get none order.key t ≡ (ok (pos n), t))
ReadsBack order (err e, t) = Unit
