-- ===== src/Torutils/Hex.antt =====
-- `hex.EncodeToString`, and the bytes that `hex.DecodeString` gives, with its error or without.
use kothawoc.Prelude.{
  ℕ, Bytes, ◌+◌, ◌-◌, ◌*◌, ◌/◌, ◌%◌, ◌<◌, leb, ltb, ◌&&◌, Option, none, some, [], ◌∷◌, All,
  if◌then◌else◌, ◌≡◌, refl, arith,
}

unfoldable pub digit : ℕ → ℕ
digit n = if ltb n 10 then 48 + n else 87 + n

unfoldable pub encode : Bytes → Bytes
unfolding digit
encode [] = []
encode (b ∷ s) = digit (b / 16) ∷ digit (b % 16) ∷ encode s

-- The value of a digit, in either case.
unfoldable pub value : ℕ → Option ℕ
value c =
    if leb 48 c && leb c 57
    then some (c - 48)
    else if leb 97 c && leb c 102
    then some (c - 87)
    else if leb 65 c && leb c 70
    then some (c - 55)
    else none

-- The pair of two digits in front of what is decoded after it.
abbrev pub pair : Option ℕ → Option ℕ → Bytes → Bytes
pair (some a) (some b) rest = (16 * a + b) ∷ rest
pair (some a) none rest = []
pair none b rest = []

-- What stands before the first digit that is wrong or alone.
unfoldable pub decode : Bytes → Bytes
unfolding value
decode [] = []
decode (c ∷ []) = []
decode (c ∷ (d ∷ s)) = pair (value c) (value d) (decode s)

-- The same, where everything is wanted: `none` is the error.
abbrev pub pair_all : Option ℕ → Option ℕ → Option Bytes → Option Bytes
pair_all (some a) (some b) (some rest) = some ((16 * a + b) ∷ rest)
pair_all (some a) (some b) none = none
pair_all (some a) none rest = none
pair_all none b rest = none

unfoldable pub decode_all : Bytes → Option Bytes
unfolding value
decode_all [] = some []
decode_all (c ∷ []) = none
decode_all (c ∷ (d ∷ s)) = pair_all (value c) (value d) (decode_all s)

value-digit : (n : ℕ) → n < 16 → value (digit n) ≡ some n
unfolding value digit
value-digit n h = ground arith

abbrev pub IsByte : ℕ → Type 0
IsByte b = b < 256

-- What is encoded is decoded again.
pub decode-encode : (s : Bytes) → All IsByte s → decode (encode s) ≡ s
unfolding decode encode
decode-encode [] h = refl
decode-encode (b ∷ s) h =
    rw
      (
        value-digit (b / 16) (omega (arith, h.0)),
        value-digit (b % 16) (omega arith),
        decode-encode s h.1,
      )
      (ground arith)

pub decode_all-encode : (s : Bytes) → All IsByte s → decode_all (encode s) ≡ some s
unfolding decode_all encode
decode_all-encode [] h = refl
decode_all-encode (b ∷ s) h =
    rw
      (
        value-digit (b / 16) (omega (arith, h.0)),
        value-digit (b % 16) (omega arith),
        decode_all-encode s h.1,
      )
      (ground arith)
