-- ===== src/Base/Text.antt =====
-- Texts: the comparison of ids and keys, and the equality of optional ids.
use Prim.Native.Nat.{ℕ, ◌+◌, ◌-◌}
use Prim.Native.Char.{code}
use Prim.Native.String.{String, [], ◌∷◌, ◌++◌}
use mathlib.Core.List.{List}
use mathlib.Core.Path.{◌≡◌}
use mathlib.Core.Logic.{◌↔◌}
use mathlib.Core.Bool.{Bool, true, false, ◌&&◌, ◌||◌}
use mathlib.Core.Option.{Option, none, some}
use native.Mathlib.Omega.{arith}
use text.Mathlib.Text.{◌==◌ as same_text}
use text.Mathlib.TextEquality.{eq_iff}
use tenzopay.Base.Tests.{leb, ◌==◌, if◌then◌else◌}

unfoldable pub str_eq : String → String → Bool
str_eq s t = same_text s t

pub str_eq_iff : (s t : String) → (str_eq s t ≡ true) ↔ (s ≡ t)
unfolding str_eq
str_eq_iff s t = eq_iff s t

-- `a === b` for `string | null`
unfoldable pub id_eq : Option String → Option String → Bool
id_eq none none = true
id_eq none (some t) = false
id_eq (some s) none = false
id_eq (some s) (some t) = str_eq s t

pub id_eq_iff : (a b : Option String) → (id_eq a b ≡ true) ↔ (a ≡ b)
unfolding id_eq
id_eq_iff none none = ground arith
id_eq_iff none (some t) = ground arith
id_eq_iff (some s) none = ground arith
id_eq_iff (some s) (some t) = ground (arith, str_eq_iff s t)

-- template literals
infixr 65 ◌<>◌
abbrev pub ◌<>◌ : String → String → String
s <> t = s ++ t

-- The code points of a text, in lower case as far as the Latin letters go.
abbrev pub lower_codes : String → List ℕ
lower_codes [] = List.[]
lower_codes (c ∷ s) =
    List.◌∷◌ (if leb 65 (code c) && leb (code c) 90 then code c + 32 else code c) (lower_codes s)

unfoldable pub is_prefix : List ℕ → List ℕ → Bool
is_prefix List.[] t = true
is_prefix (List.◌∷◌ a s) List.[] = false
is_prefix (List.◌∷◌ a s) (List.◌∷◌ b t) = a == b && is_prefix s t

unfoldable pub has_part : List ℕ → List ℕ → Bool
unfolding is_prefix
has_part List.[] p = is_prefix p List.[]
has_part (List.◌∷◌ c t) p = is_prefix p (List.◌∷◌ c t) || has_part t p

-- `text.toLowerCase().includes(part)`
unfoldable pub lower_includes : String → String → Bool
unfolding has_part
lower_includes text part = has_part (lower_codes text) (lower_codes part)

-- `text.toUpperCase()` as far as it can give a Latin capital: the Latin letters and the long s.
abbrev pub upper_codes : String → List ℕ
upper_codes [] = List.[]
upper_codes (c ∷ s) =
    List.◌∷◌
      (if leb 97 (code c) && leb (code c) 122
        then code c - 32
        else if code c == 383
        then 83
        else code c)
      (upper_codes s)

unfoldable pub codes_eq : List ℕ → List ℕ → Bool
codes_eq List.[] List.[] = true
codes_eq (List.◌∷◌ a s) (List.◌∷◌ b t) = a == b && codes_eq s t
codes_eq _ _ = false

-- `text.toUpperCase() === name` for a name in capitals
unfoldable pub same_upper : String → String → Bool
unfolding codes_eq
same_upper text name = codes_eq (upper_codes text) (upper_codes name)
