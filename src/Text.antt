-- ===== src/Text.antt =====
-- The functions of Go's `strings` and `strconv` that the program uses, on byte strings.
pub mod Laws
pub mod Decimal
use kothawoc.Prelude.{
  ℕ, suc, Bytes, codes, beq, Bool, true, false, ◌&&◌, Option, none, some, List, [], ◌∷◌, ◌++◌, ◌-◌,
  length, ◌+◌, ◌*◌, ◌/◌, ◌%◌, ◌^◌, ◌==◌, ltb, leb, if◌then◌else◌, zero,
}
use kothawoc.Prelude.Int.{ℤ, pos, negsuc}

-- A byte in front of the first part; there is always a first part.
abbrev pub push : ℕ → List Bytes → List Bytes
push c [] = (c ∷ []) ∷ []
push c (p ∷ ps) = (c ∷ p) ∷ ps

-- `strings.Split(s, sep)` at a separator of one byte.
unfoldable pub split : ℕ → Bytes → List Bytes
split sep [] = [] ∷ []
split sep (c ∷ s) = let rest = split sep s in if c == sep then [] ∷ rest else push c rest

-- `strings.Join(parts, sep)`
unfoldable pub join : Bytes → List Bytes → Bytes
join sep [] = []
join sep (p ∷ []) = p
join sep (p ∷ (q ∷ ps)) = p ++ (sep ++ join sep (q ∷ ps))

-- `strings.HasPrefix(s, p)`
unfoldable pub has_prefix : Bytes → Bytes → Bool
has_prefix [] s = true
has_prefix (c ∷ p) [] = false
has_prefix (c ∷ p) (d ∷ s) = d == c && has_prefix p s

-- `strings.Split` at a separator that is not empty; `skip` bytes of one are still to pass.
unfoldable pub split_from : ℕ → Bytes → Bytes → List Bytes
unfolding has_prefix
split_from skip sep [] = [] ∷ []
split_from (suc skip) sep (c ∷ s) = split_from skip sep s
split_from zero sep (c ∷ s) =
    let rest = split_from zero sep s in
    let past = split_from (length sep - 1) sep s in
    if has_prefix sep (c ∷ s) then [] ∷ past else push c rest

-- `strings.Split(s, sep)`
unfoldable pub split_on : Bytes → Bytes → List Bytes
unfolding split_from
split_on sep s = split_from 0 sep s

-- `strings.TrimSpace` on ASCII: the space, and the codes from tab to carriage return.
unfoldable pub is_space : ℕ → Bool
is_space c = if c == 32 then true else leb 9 c && leb c 13

unfoldable pub trim_left : Bytes → Bytes
unfolding is_space
trim_left [] = []
trim_left (c ∷ s) = let rest = trim_left s in if is_space c then rest else c ∷ s

unfoldable pub all_space : Bytes → Bool
unfolding is_space
all_space [] = true
all_space (c ∷ s) = is_space c && all_space s

unfoldable pub trim_right : Bytes → Bytes
unfolding all_space
trim_right [] = []
trim_right (c ∷ s) = let rest = trim_right s in if all_space (c ∷ s) then [] else c ∷ rest

unfoldable pub trim_space : Bytes → Bytes
unfolding trim_left trim_right
trim_space s = trim_left (trim_right s)

abbrev pub decimal_digit : ℕ → Bool
decimal_digit c = leb b'0' c && leb c b'9'

-- The value of a run of decimal digits behind the value read so far.
unfoldable pub digits_value : Bytes → ℕ → Option ℕ
digits_value [] n = some n
digits_value (c ∷ s) n =
    let rest = digits_value s (n * 10 + (c - b'0')) in if decimal_digit c then rest else none

-- At least one digit.
unfoldable pub unsigned : Bytes → Option ℕ
unfolding digits_value
unsigned [] = none
unsigned (c ∷ s) = digits_value (c ∷ s) 0

abbrev pub positive : Option ℕ → Option ℤ
positive none = none
positive (some n) = if ltb n (2 ^ 63) then some (pos n) else none

abbrev pub negative : Option ℕ → Option ℤ
negative none = none
negative (some zero) = some (pos 0)
negative (some (suc n)) = if ltb n (2 ^ 63) then some (negsuc n) else none

-- `strconv.ParseInt(s, 10, 64)`: an optional sign, digits, and the range of an int64.
unfoldable pub parse_int : Bytes → Option ℤ
unfolding unsigned
parse_int [] = none
parse_int (c ∷ s) =
    if c == b'-'
    then negative (unsigned s)
    else if c == b'+'
    then positive (unsigned s)
    else positive (unsigned (c ∷ s))

-- One digit, as `strconv` writes it.
unfoldable pub digit : ℕ → ℕ
digit d = if ltb d 10 then b'0' + d else b'a' + (d - 10)

-- The digits of a number, the last one first out; the fuel bounds their count.
unfoldable pub format_digits : ℕ → ℕ → ℕ → Bytes → Bytes
unfolding digit
format_digits base zero n out = out
format_digits base (suc f) n out =
    let rest = format_digits base f (n / base) (digit (n % base) ∷ out) in
    if ltb n base then digit (n % base) ∷ out else rest

-- `strconv.FormatInt(n, base)` of a number that is not negative, and `%d` and `%x`.
unfoldable pub format_int : ℕ → ℕ → Bytes
unfolding format_digits
format_int base n = format_digits base (suc n) n []
