-- ===== src/Messages/Mime.antt =====
-- What pkg/messages/messages.go uses of mime, mime/multipart, fmt and encoding/base32.
use kothawoc.Prelude.{
  ℕ, Bytes, codes, Bool, true, false, ◌&&◌, ◌||◌, Option, List, [], ◌∷◌, ◌++◌, ◌==◌, ltb, leb,
  length, if◌then◌else◌, ◌≡◌, refl, arith,
}
use kothawoc.Dict.{Dict}
use kothawoc.Text.Laws.{Lacks}
use kothawoc.Header.{Header}
use kothawoc.Messages.{MimePart}

-- `media_type` gives the parameters that `mime.ParseMediaType` finds, `none` for its error; `expand` is
-- `fmt.Sprintf` of a format without operands; `decode32` gives the bytes that `base32.Decode` has
-- written at its end, and whether it ends without an error; `read_parts` is a loop of
-- `multipart.Reader.NextPart` up to its first error; `visit` is the order of `range` over a map.
pub record Library : Type 0 where
  pub media_type : Bytes → Option (Dict Bytes)
  pub expand : Bytes → Bytes
  pub encode32 : Bytes → Bytes
  pub decode32 : Bytes → Bytes × Bool
  pub read_parts : Bytes → Bytes → List MimePart
  pub visit : Header → Header

-- Their documented behaviour: decoding undoes encoding.
pub record IsStandard (l : Library) : Type 0 where
  pub decode32-encode32 : (s : Bytes) → l.decode32 (l.encode32 s) ≡ (s, true)

abbrev pub line_end : Bytes
line_end = 13 ∷ 10 ∷ []

-- `strings.Replace(s, "\r", "", -1)`
unfoldable pub without_returns : Bytes → Bytes
without_returns [] = []
without_returns (c ∷ s) = let rest = without_returns s in if c == 13 then rest else c ∷ rest

-- `strings.Replace(s, "\n", "\r\n", -1)`
unfoldable pub with_returns : Bytes → Bytes
with_returns [] = []
with_returns (c ∷ s) = let rest = with_returns s in if c == 10 then 13 ∷ 10 ∷ rest else c ∷ rest

unfoldable pub normal : Bytes → Bytes
unfolding without_returns with_returns
normal s = with_returns (without_returns s)

pub without_returns_clean : (s : Bytes) → Lacks 13 (without_returns s)
unfolding without_returns
without_returns_clean [] = tt
without_returns_clean (c ∷ s) = ground (arith, without_returns_clean s)

without_returns-with_returns : (s : Bytes) → Lacks 13 s → without_returns (with_returns s) ≡ s
unfolding without_returns with_returns
without_returns-with_returns [] h = refl
without_returns-with_returns (c ∷ s) h = ground (arith, without_returns-with_returns s h.1)

-- A text with CRLF line ends stays as it is.
pub normal-normal : (s : Bytes) → normal (normal s) ≡ normal s
unfolding normal
normal-normal s =
    rw (without_returns-with_returns (without_returns s) (without_returns_clean s)) refl

-- One line of a header, `"%s: %s\r\n"`.
abbrev pub field_line : Bytes → Bytes → Bytes
field_line key value = key ++ (codes ": " ++ (value ++ line_end))

unfoldable pub field_lines : Bytes → List Bytes → Bytes
field_lines key [] = []
field_lines key (v ∷ vs) = field_line key v ++ field_lines key vs

unfoldable pub fields : Header → Bytes
unfolding field_lines
fields [] = []
fields ((key, vs) ∷ h) = field_lines key vs ++ fields h

-- `<` on strings.
unfoldable pub less : Bytes → Bytes → Bool
less [] [] = false
less [] (d ∷ t) = true
less (c ∷ s) [] = false
less (c ∷ s) (d ∷ t) = let rest = less s t in if c == d then rest else ltb c d

unfoldable pub put_sorted : Bytes × List Bytes → Header → Header
unfolding less
put_sorted (k, v) [] = (k, v) ∷ []
put_sorted (k, v) ((j, w) ∷ h) =
    let rest = put_sorted (k, v) h in if less k j then (k, v) ∷ ((j, w) ∷ h) else (j, w) ∷ rest

-- A header by its keys, as `CreatePart` writes it.
unfoldable pub sorted : Header → Header
unfolding put_sorted
sorted [] = []
sorted ((k, v) ∷ h) = put_sorted (k, v) (sorted h)

unfoldable pub mem : ℕ → Bytes → Bool
mem c [] = false
mem c (d ∷ s) = c == d || mem c s

unfoldable pub boundary_byte : ℕ → Bool
unfolding mem
boundary_byte c =
    (leb b'A' c && leb c b'Z')
    || ((leb b'a' c && leb c b'z') || ((leb b'0' c && leb c b'9') || mem c (codes "'()+_,-./:=?")))

-- A space may stand anywhere but at the end.
unfoldable pub boundary_bytes : Bytes → Bool
unfolding boundary_byte
boundary_bytes [] = true
boundary_bytes (c ∷ []) = boundary_byte c
boundary_bytes (c ∷ (d ∷ s)) = (boundary_byte c || c == 32) && boundary_bytes (d ∷ s)

-- Does `multipart.Writer.SetBoundary` take the boundary?
unfoldable pub is_boundary : Bytes → Bool
unfolding boundary_bytes
is_boundary b = leb 1 (length b) && (leb (length b) 70 && boundary_bytes b)

-- What `CreatePart` and `Write` put out for the parts, the first of which has no line end before it.
unfoldable pub parts_text : Bytes → Bytes → List MimePart → Bytes
unfolding fields sorted normal
parts_text boundary before [] = []
parts_text boundary before (p ∷ parts) =
    before
    ++ (codes "--"
        ++ (boundary
            ++ (line_end
                ++ (fields (sorted p.header)
                    ++ (line_end ++ (normal p.content ++ parts_text boundary line_end parts))))))

-- The parts, and what `Close` puts out.
unfoldable pub multipart : Bytes → List MimePart → Bytes
unfolding parts_text
multipart boundary parts =
    parts_text boundary [] parts
    ++ (line_end ++ (codes "--" ++ (boundary ++ (codes "--" ++ line_end))))
