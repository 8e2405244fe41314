-- ===== src/Text/Decimal.antt =====
-- A number is read back from its decimal text.
use kothawoc.Prelude.{
  ℕ, zero, suc, ◌/◌, ◌%◌, ◌^◌, ◌<◌, Bytes, true, some, [], ◌∷◌, ◌≡◌, refl, arith, ltb, Bool-cases,
  inl, inr,
}
use kothawoc.Prelude.Int.{pos}
use kothawoc.Text.{
  digit, format_digits, format_int, digits_value, parse_int, decimal_digit, positive,
}

digits_value-nil : (n : ℕ) → digits_value [] n ≡ some n
unfolding digits_value
digits_value-nil n = refl

-- The digits written for `n`, before `out`, read as `n` and then `out`.
digits_value-format :
    (f n : ℕ) (out : Bytes) → n < f → digits_value (format_digits 10 f n out) 0 ≡ digits_value out n
unfolding digits_value format_digits digit
digits_value-format zero n out h = elim h [ ]
digits_value-format (suc f) n out h =
    ground (arith, digits_value-format f (n / 10) (digit (n % 10) ∷ out))

-- A text that begins with a digit has no sign.
abbrev BeginsWithDigit : Bytes → Type 0
BeginsWithDigit [] = ⊥
BeginsWithDigit (c ∷ s) = decimal_digit c ≡ true

format-BeginsWithDigit :
    (f n : ℕ) (out : Bytes) → n < f → BeginsWithDigit (format_digits 10 f n out)
unfolding format_digits digit
format-BeginsWithDigit zero n out h = elim h [ ]
format-BeginsWithDigit (suc f) n out h = elim (Bool-cases (ltb n 10)) [
  | inl small ↦ rw small (ground arith)
  | inr large ↦ rw large (format-BeginsWithDigit f (n / 10) (digit (n % 10) ∷ out) (ground arith))
]

parse_int-unsigned : (s : Bytes) → BeginsWithDigit s → parse_int s ≡ positive (digits_value s 0)
unfolding parse_int
parse_int-unsigned [] h = elim h [ ]
parse_int-unsigned (c ∷ s) h = ground arith

-- An article number below 2^63 that is written in decimal is read back as itself.
pub parse_int-format_int : (n : ℕ) → n < 2 ^ 63 → parse_int (format_int 10 n) ≡ some (pos n)
unfolding format_int
parse_int-format_int n h =
    rw
      (
        parse_int-unsigned _ (format-BeginsWithDigit (suc n) n [] (omega arith)),
        digits_value-format (suc n) n [] (omega arith),
      )
      (ground (arith, digits_value-nil n))
