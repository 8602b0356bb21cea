-- ===== src/Texts/Decimal.antt =====
-- The decimal print of a number is read back as that number, and trimming leaves digits alone.
use tenzopay.Base.{
  ℕ, zero, suc, ◌+◌, ◌/◌, ◌%◌, ◌<◌, ◌==◌, pos, some, Bool, true, false, not, ◌&&◌, Bool-cases, inl,
  inr, [], ◌∷◌, ◌≡◌, refl, sym, ◌∙◌, ap, arith,
}
use tenzopay.Texts.{
  Text, is_space, is_nil, trim_start, trim_end, trim, is_digit, all_digits, is_whole, read_digits,
  read_some, signed_int, big_int, put_digits, to_decimal, to_pos,
}

digit_not_space : (c : ℕ) → is_digit c ≡ true → is_space c ≡ false
unfolding is_space
digit_not_space c h = ground arith

trim_start_digits : (s : Text) → all_digits s ≡ true → trim_start s ≡ s
unfolding all_digits trim_start
trim_start_digits [] h = refl
trim_start_digits (c ∷ s) h = ground (arith, digit_not_space c)

trim_end_digits : (s : Text) → all_digits s ≡ true → trim_end s ≡ s
unfolding all_digits trim_end
trim_end_digits [] h = refl
trim_end_digits (c ∷ s) h = ground (arith, digit_not_space c, trim_end_digits s)

pub trim_digits : (s : Text) → all_digits s ≡ true → trim s ≡ s
unfolding trim
trim_digits s h = rw (trim_start_digits s h) (trim_end_digits s h)

read_last :
    (n : ℕ) (out : Text) → read_digits 10 (n / 10) ((48 + n % 10) ∷ out) ≡ read_digits 10 n out
unfolding read_digits
read_last n out = ground arith

put_digits_stop : (fuel n : ℕ) (out : Text) → (n == 0) ≡ true → put_digits (suc fuel) n out ≡ out
unfolding put_digits
put_digits_stop fuel n out h = rw (h, put_digits) refl

put_digits_more :
    (fuel n : ℕ) (out : Text)
    → (n == 0) ≡ false
    → put_digits (suc fuel) n out ≡ put_digits fuel (n / 10) ((48 + n % 10) ∷ out)
unfolding put_digits
put_digits_more fuel n out h = rw (h, put_digits) refl

read-put_digits :
    (fuel n : ℕ) (out : Text)
    → n < fuel
    → read_digits 10 0 (put_digits fuel n out) ≡ read_digits 10 n out
read-put_digits zero n out h = absurd (omega arith)
read-put_digits (suc fuel) n out h = elim (Bool-cases (n == 0)) [
  | inl stop ↦
      let e : n ≡ 0 = ground arith in
      ap (read_digits 10 0) (put_digits_stop fuel n out stop) ∙ rw e refl
  | inr more ↦
      ap (read_digits 10 0) (put_digits_more fuel n out more)
      ∙ read-put_digits fuel (n / 10) ((48 + n % 10) ∷ out) (ground arith)
      ∙ read_last n out
]

digit-all : (n : ℕ) (out : Text) → all_digits out ≡ true → all_digits ((48 + n % 10) ∷ out) ≡ true
unfolding all_digits
digit-all n out h = ground (arith, h)

put_digits-all :
    (fuel n : ℕ) (out : Text) → all_digits out ≡ true → all_digits (put_digits fuel n out) ≡ true
unfolding put_digits
put_digits-all zero n out h = h
put_digits-all (suc fuel) n out h = elim (Bool-cases (n == 0)) [
  | inl stop ↦ ap all_digits (put_digits_stop fuel n out stop) ∙ h
  | inr more ↦
      ap all_digits (put_digits_more fuel n out more)
      ∙ put_digits-all fuel (n / 10) ((48 + n % 10) ∷ out) (digit-all n out h)
]

put_digits-some :
    (fuel n : ℕ) (out : Text) → is_nil out ≡ false → is_nil (put_digits fuel n out) ≡ false
unfolding put_digits
put_digits-some zero n out h = h
put_digits-some (suc fuel) n out h = elim (Bool-cases (n == 0)) [
  | inl stop ↦ ap is_nil (put_digits_stop fuel n out stop) ∙ h
  | inr more ↦
      ap is_nil (put_digits_more fuel n out more)
      ∙ put_digits-some fuel (n / 10) ((48 + n % 10) ∷ out) refl
]

no_digits : all_digits [] ≡ true
unfolding all_digits
no_digits = refl

-- The print of a number other than 0.
to_decimal_more :
    (n : ℕ) → (n == 0) ≡ false → to_decimal n ≡ put_digits n (n / 10) ((48 + n % 10) ∷ [])
unfolding to_decimal
to_decimal_more n h = rw (h, to_decimal) (put_digits_more n n [] h)

to_decimal_zero : (n : ℕ) → (n == 0) ≡ true → to_decimal n ≡ 48 ∷ []
unfolding to_decimal
to_decimal_zero n h = rw (h, to_decimal) refl

zero-whole : is_whole (48 ∷ []) ≡ true
unfolding all_digits
zero-whole = refl

both : (a b : Bool) → a ≡ false → b ≡ true → (not a && b) ≡ true
both a b h k = ground (arith, h, k)

pub to_decimal-whole : (n : ℕ) → is_whole (to_decimal n) ≡ true
to_decimal-whole n = elim (Bool-cases (n == 0)) [
  | inl stop ↦ ap (λ s. is_whole s) (to_decimal_zero n stop) ∙ zero-whole
  | inr more ↦
      ap (λ s. is_whole s) (to_decimal_more n more)
      ∙ both _ _ (put_digits-some n (n / 10) ((48 + n % 10) ∷ []) refl)
          (put_digits-all n (n / 10) ((48 + n % 10) ∷ []) (digit-all n [] no_digits))
]

-- Digits are read as they stand.
signed_digits : (s : Text) → is_whole s ≡ true → signed_int s ≡ to_pos (read_some 10 s)
unfolding all_digits
signed_digits [] h = cc
signed_digits (c ∷ []) h = ground arith
signed_digits (c ∷ x ∷ s) h = ground arith

read_zero : read_digits 10 0 (48 ∷ []) ≡ some 0
unfolding read_digits
read_zero = refl

read-to_decimal : (n : ℕ) → read_digits 10 0 (to_decimal n) ≡ some n
unfolding read_digits
read-to_decimal n = elim (Bool-cases (n == 0)) [
  | inl stop ↦
      let e : n ≡ 0 = ground arith in
      ap (read_digits 10 0) (to_decimal_zero n stop) ∙ read_zero ∙ ap (λ m. some m) (sym e)
  | inr more ↦
      ap (read_digits 10 0) (to_decimal_more n more)
      ∙ read-put_digits n (n / 10) ((48 + n % 10) ∷ []) (ground arith)
      ∙ read_last n []
]

read_some_lem :
    (radix : ℕ) (s : Text) → is_nil s ≡ false → read_some radix s ≡ read_digits radix 0 s
read_some_lem radix [] h = cc (h)
read_some_lem radix (c ∷ s) h = refl

whole_some : (s : Text) → is_whole s ≡ true → (is_nil s ≡ false) × (all_digits s ≡ true)
whole_some s h = ground arith

pub big_int-whole : (s : Text) → is_whole s ≡ true → big_int s ≡ to_pos (read_digits 10 0 s)
unfolding big_int
big_int-whole s h =
    let (some_digit, digits) = whole_some s h in
    ap signed_int (trim_digits s digits)
    ∙ signed_digits s h
    ∙ ap to_pos (read_some_lem 10 s some_digit)

pub big_int-to_decimal : (n : ℕ) → big_int (to_decimal n) ≡ some (pos n)
big_int-to_decimal n = big_int-whole _ (to_decimal-whole n) ∙ ap to_pos (read-to_decimal n)
