-- ===== src/Header.antt =====
-- `textproto.MIMEHeader`: a map from canonical keys to the values of a field.
use kothawoc.Prelude.{
  ℕ, ◌+◌, ◌-◌, Bytes, codes, beq, Bool, true, false, not, ◌&&◌, ◌||◌, Option, none, some, List, [],
  ◌∷◌, ◌==◌, leb, if◌then◌else◌, ◌≡◌, arith,
}
use kothawoc.Dict.{Dict, lookup, insert, lookup-insert}

abbrev is_lower : ℕ → Bool
is_lower c = leb b'a' c && leb c b'z'

abbrev is_upper : ℕ → Bool
is_upper c = leb b'A' c && leb c b'Z'

mem_byte : ℕ → Bytes → Bool
mem_byte c [] = false
mem_byte c (d ∷ s) = c == d || mem_byte c s

-- The bytes that a field's name may hold (RFC 7230).
is_token : ℕ → Bool
unfolding mem_byte
is_token c =
    is_lower c
    || (is_upper c || ((leb b'0' c && leb c b'9') || mem_byte c (codes "!#$%&'*+-.^_`|~")))

all_token : Bytes → Bool
unfolding is_token
all_token [] = true
all_token (c ∷ s) = is_token c && all_token s

-- The first letter and each one behind a dash are capitals.
capitals : Bool → Bytes → Bytes
capitals up [] = []
capitals up (c ∷ s) =
    (if up && is_lower c then c - 32 else if not up && is_upper c then c + 32 else c)
    ∷ capitals (c == b'-') s

-- `textproto.CanonicalMIMEHeaderKey`
unfoldable pub canonical : Bytes → Bytes
unfolding all_token capitals
canonical k = if all_token k then capitals true k else k

abbrev pub Header : Type 0
Header = Dict (List Bytes)

abbrev first_value : Option (List Bytes) → Bytes
first_value none = []
first_value (some []) = []
first_value (some (v ∷ _)) = v

-- `Header.Get`
unfoldable pub get : Header → Bytes → Bytes
get h k = first_value (lookup (canonical k) h)

abbrev all_values : Option (List Bytes) → List Bytes
all_values none = []
all_values (some vs) = vs

-- `Header.Values`
unfoldable pub values : Header → Bytes → List Bytes
values h k = all_values (lookup (canonical k) h)

-- `Header.Set`
unfoldable pub set : Header → Bytes → Bytes → Header
set h k v = insert (canonical k) (v ∷ []) h

pub get-set :
    (h : Header) (k j v : Bytes)
    → get (set h k v) j ≡ (if beq (canonical k) (canonical j) then v else get h j)
unfolding get set
get-set h k j v = ground (arith, lookup-insert (canonical k) (canonical j) (v ∷ []) h)

pub values-set :
    (h : Header) (k j v : Bytes)
    → values (set h k v) j ≡ (if beq (canonical k) (canonical j) then v ∷ [] else values h j)
unfolding values set
values-set h k j v = ground (arith, lookup-insert (canonical k) (canonical j) (v ∷ []) h)
