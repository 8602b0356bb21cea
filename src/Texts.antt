-- ===== src/Texts.antt =====
-- JavaScript's strings where the program walks their characters: the list of the UTF-16 code units, with
-- `trim`, `BigInt(text)` and `value.toString()`.
pub mod Decimal
use Prim.Native.Char.{code}
use Prim.Native.String
use tenzopay.Base.{
  ℕ, zero, suc, ◌+◌, ◌-◌, ◌*◌, ◌/◌, ◌%◌, leb, ltb, ◌==◌, ℤ, pos, neg_ℤ, String, Option, none, some,
  Bool, true, false, not, ◌&&◌, ◌||◌, if◌then◌else◌, List, [], ◌∷◌,
}

abbrev pub Text : Type 0
Text = List ℕ

-- The code units of a literal of the basic plane.
abbrev pub units : String → Text
units String.[] = []
units (String.◌∷◌ c s) = code c ∷ units s

unfoldable pub is_space : ℕ → Bool
is_space c =
    (leb 9 c && leb c 13)
    || (c == 32
        || (c == 160
            || (c == 5760
                || ((leb 8192 c && leb c 8202)
                    || (c == 8232
                        || (c == 8233
                            || (c == 8239 || (c == 8287 || (c == 12288 || c == 65279)))))))))

abbrev pub is_nil : Text → Bool
is_nil [] = true
is_nil (c ∷ s) = false

unfoldable pub trim_start : Text → Text
trim_start [] = []
trim_start (c ∷ s) = let rest = trim_start s in if is_space c then rest else c ∷ s

unfoldable pub trim_end : Text → Text
trim_end [] = []
trim_end (c ∷ s) = let rest = trim_end s in if is_space c && is_nil rest then [] else c ∷ rest

unfoldable pub trim : Text → Text
trim s = trim_end (trim_start s)

abbrev pub is_digit : ℕ → Bool
is_digit c = leb 48 c && leb c 57

-- `/^\d+$/`
unfoldable pub all_digits : Text → Bool
all_digits [] = true
all_digits (c ∷ s) = is_digit c && all_digits s

abbrev pub is_whole : Text → Bool
is_whole s = not (is_nil s) && all_digits s

-- The value of a digit or a Latin letter, or 99.
abbrev pub digit_value : ℕ → ℕ
digit_value c =
    if is_digit c
    then c - 48
    else if leb 65 c && leb c 90
    then c - 55
    else if leb 97 c && leb c 122
    then c - 87
    else 99

-- Digits of a radix, behind the number that was read.
unfoldable pub read_digits : ℕ → ℕ → Text → Option ℕ
read_digits radix n [] = some n
read_digits radix n (c ∷ s) =
    let rest = read_digits radix (n * radix + digit_value c) s in
    if ltb (digit_value c) radix then rest else none

abbrev pub read_some : ℕ → Text → Option ℕ
read_some radix [] = none
read_some radix (c ∷ s) = read_digits radix 0 (c ∷ s)

-- The radix of a prefix `0x`, `0o` or `0b`.
abbrev pub radix_of : ℕ → Option ℕ
radix_of c =
    if c == 120 || c == 88
    then some 16
    else if c == 111 || c == 79
    then some 8
    else if c == 98 || c == 66
    then some 2
    else none

abbrev pub to_pos : Option ℕ → Option ℤ
to_pos none = none
to_pos (some n) = some (pos n)

abbrev pub to_neg : Option ℕ → Option ℤ
to_neg none = none
to_neg (some n) = some (neg_ℤ (pos n))

abbrev pub prefixed : Text → Option ℤ
prefixed (c ∷ x ∷ s) = elim (if c == 48 then radix_of x else none) [
  | some radix ↦ to_pos (read_some radix s)
  | none ↦ to_pos (read_some 10 (c ∷ x ∷ s))
]
prefixed s = to_pos (read_some 10 s)

abbrev pub signed_int : Text → Option ℤ
signed_int [] = some (pos 0)
signed_int (c ∷ s) =
    if c == 45
    then to_neg (read_some 10 s)
    else if c == 43
    then to_pos (read_some 10 s)
    else prefixed (c ∷ s)

-- `BigInt(text)`; where it throws, none.
unfoldable pub big_int : Text → Option ℤ
big_int s = signed_int (trim s)

-- The digits of a number before a text; the fuel is a number above it.
unfoldable pub put_digits : ℕ → ℕ → Text → Text
put_digits zero n out = out
put_digits (suc fuel) n out = elim (n == 0) [
  | true ↦ out
  | false ↦ put_digits fuel (n / 10) ((48 + n % 10) ∷ out)
]

-- `value.toString()` of a bigint that is not negative
unfoldable pub to_decimal : ℕ → Text
to_decimal n = if n == 0 then 48 ∷ [] else put_digits (suc n) n []
