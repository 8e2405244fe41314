-- ===== src/Messages/Tool.antt =====
-- `MessageTool` of pkg/messages/messages.go: writing, signing and verifying a message.
use kothawoc.Prelude.{
  ℕ, Bytes, codes, beq, Bool, true, false, not, ◌&&◌, Option, none, some, List, [], ◌∷◌, ◌++◌, ◌==◌,
  ◌+◌, ltb, leb, length, map, if◌then◌else◌,
}
use kothawoc.Serror.{Error, Caller, serror}
use kothawoc.Dict.{lookup}
use kothawoc.Header.{Header, get, values, set}
use kothawoc.Keytool
use kothawoc.Keytool.{Crypto, EasyEdKey, Result, tor_id, tor_pub_key, tor_sign}
use kothawoc.Torutils.Hex.{encode, decode_all}
use kothawoc.Databases.Articles.{Article, signature_header}
use kothawoc.Messages.{MimePart}
use kothawoc.Messages.Mime.{Library, line_end, normal, field_lines, is_boundary, multipart}

-- `MessageTool`; a method that changes it returns the new one.
pub record MessageTool : Type 0 where
  pub parts : List MimePart
  pub preamble : Bytes
  pub article : Article

-- The text that a method returns, its error, or a panic.
pub data Written : Type 0 where
  ok : Bytes → Written
  err : Error → Written
  panic : Written

abbrev pub approved : Bytes
approved = codes "Approved"

-- `SignatureFields`
abbrev pub signature_fields : List Bytes
signature_fields =
    codes "From"
    ∷ codes "Newsgroups"
    ∷ codes "Date"
    ∷ codes "Subject"
    ∷ codes "Approved"
    ∷ codes "Control"
    ∷ codes "Distribution"
    ∷ codes "Message-Id"
    ∷ codes "Supersedes"
    ∷ codes "Sender"
    ∷ codes "Mime-Version"
    ∷ codes "Content-Type"
    ∷ codes "Content-Transfer-Encoding"
    ∷ []

abbrev pub content_type_key : Bytes
content_type_key = codes "Content-Type"

-- `strings.ToLower` on ASCII.
unfoldable pub lower : Bytes → Bytes
lower [] = []
lower (c ∷ s) = (if leb b'A' c && leb c b'Z' then c + 32 else c) ∷ lower s

-- `slices.Contains`
unfoldable pub contains : List Bytes → Bytes → Bool
contains [] k = false
contains (j ∷ js) k = let rest = contains js k in if beq j k then true else rest

-- The lines of the signed fields, in the order of `SignatureFields`.
unfoldable pub signed_lines : List Bytes → Header → Bytes
unfolding field_lines
signed_lines [] h = []
signed_lines (name ∷ names) h = field_lines name (values h name) ++ signed_lines names h

-- The lines of the other fields, in the order in which the map is visited.
unfoldable pub other_lines : Header → Bytes
unfolding field_lines contains lower
other_lines [] = []
other_lines ((key, vs) ∷ h) =
    (if contains (map lower signature_fields) (lower key) then [] else field_lines key vs)
    ++ other_lines h

-- The boundary of the writer: that of the content type, or `random` where it is refused.
abbrev pub boundary_of : Bytes → Option Bytes → Bytes
boundary_of random none = random
boundary_of random (some b) = if is_boundary b then b else random

-- A parameter that is not there is the empty text.
abbrev pub param : Option Bytes → Bytes
param none = []
param (some b) = b

module _ (l : Library) where
  -- The parts; `none` is the panic of a writer that is nil since the content type is no media type.
  unfoldable pub body_text : Bytes → Header → List MimePart → Option Bytes
  unfolding multipart is_boundary
  body_text random h [] = some []
  body_text random h (p ∷ []) = some []
  body_text random h (p ∷ (q ∷ parts)) = elim (l.media_type (get h content_type_key)) [
    | none ↦ none
    | some ps ↦ some (
        line_end ++ multipart (boundary_of random (lookup (codes "boundary") ps)) (p ∷ (q ∷ parts)))
  ]

  -- What stands before the preamble.
  unfoldable pub header_text : Bool → Header → Bytes
  unfolding signed_lines other_lines
  header_text signing h =
      signed_lines signature_fields h
      ++ ((if signing then [] else other_lines (l.visit h)) ++ line_end)

  -- `writeRaw`; `random` is the boundary that `multipart.NewWriter` chooses.
  unfoldable pub write_raw : Bytes → Bool → MessageTool → Option Bytes × MessageTool
  unfolding header_text body_text normal
  write_raw random signing m =
      let m' : MessageTool = record m { preamble = normal m.preamble } in
      elim (body_text random m.article.header m.parts) [
        | none ↦ (none, m')
        | some body ↦
            (some (header_text signing m.article.header ++ (l.expand m'.preamble ++ body)), m')
      ]

  -- `RawMail`
  unfoldable pub raw_mail : Bytes → MessageTool → Option Bytes × MessageTool
  unfolding write_raw
  raw_mail random m = write_raw random false m

  -- A field of the article's header set.
  abbrev pub with_field : Bytes → Bytes → MessageTool → MessageTool
  with_field k v m = record m { article = record m.article { header = set m.article.header k v } }

  abbrev pub site : ℕ → Caller
  site line = record { runtime_name = "Sign"; function = "messages.go"; line = line }

  abbrev or_empty : Result Bytes → Bytes
  or_empty (Keytool.ok b) = b
  or_empty (Keytool.err _) = []

  abbrev written : Option Bytes × MessageTool → Written × MessageTool
  written (none, m) = (panic, m)
  written (some text, m) = (ok text, m)

  -- `Sign` once the text to sign is there.
  unfoldable pub sign_text :
      Crypto → EasyEdKey → Bytes → Bytes → MessageTool → Written × MessageTool
  unfolding write_raw
  sign_text c key random text m = elim (tor_sign c text key) [
    | Keytool.err e ↦ (err (serror (site 99) e), m)
    | Keytool.ok s ↦ written (write_raw random false (with_field signature_header (l.encode32 s) m))
  ]

  -- `Sign`; each of its two writers has a random boundary of its own.
  unfoldable pub sign : Crypto → EasyEdKey → Bytes → Bytes → MessageTool → Written × MessageTool
  unfolding sign_text write_raw
  sign c key random random' m = elim (tor_pub_key c key) [
    | Keytool.err e ↦ (err (serror (site 88) e), m)
    | Keytool.ok p ↦
        let named : MessageTool =
          with_field (codes "From") (or_empty (tor_id c key)) (with_field approved (encode p) m) in
        let (text, m') = write_raw random true named in
        elim text [ none ↦ (panic, m') | some t ↦ sign_text c key random' t m' ]
  ]

  -- The verdict of `Verify`; `none` is a panic.
  unfoldable pub verify_text : Crypto → Header → Option Bytes → Option Bool
  verify_text c h text =
      let (signature, complete) = l.decode32 (get h signature_header) in
      elim text [
        | none ↦ none
        | some t ↦
            if ltb 256 (length signature)
            then none
            else if not complete
            then some false
            else elim (decode_all (get h approved)) [
              | none ↦ some false
              | some key ↦ if length key == 32 then some (c.verify key t signature) else none
            ]
      ]

  -- `Verify`: the bytes are decoded into 256 bytes, and `ed25519.Verify` wants a key of 32 bytes. The
  -- text is written once before, for the log.
  unfoldable pub verify : Crypto → Bytes → MessageTool → Option Bool × MessageTool
  unfolding verify_text write_raw
  verify c random m =
      let (text, m') = write_raw random true m in (verify_text c m.article.header text, m')

-- `NewMessageTool`, on a day.
unfoldable pub new_message_tool : Bytes → MessageTool
new_message_tool now = record {
  parts = [];
  preamble = [];
  article = record { header = (codes "Date", now ∷ []) ∷ []; body = []; bytes = 0; lines = 0 };
}
