-- ===== src/Messages/Body.antt =====
-- `ParseBody` of pkg/messages/messages.go: the preamble and the parts of a body.
use kothawoc.Prelude.{
  Bytes, codes, true, false, Option, none, some, [], ◌∷◌, ◌++◌, ◌==◌, if◌then◌else◌,
}
use kothawoc.Dict.{lookup}
use kothawoc.Text.{has_prefix}
use kothawoc.Header.{Header, get}
use kothawoc.Databases.Articles.{Article}
use kothawoc.Messages.Mime.{Library}
use kothawoc.Messages.Tool.{MessageTool, param, content_type_key}

module _ (l : Library) where
  -- What `ParseBody` finds: a text without parts, or the text before the first boundary and the text
  -- from there on.
  pub data Found : Type 0 where
    plain : Bytes → Found
    split_at : Bytes → Bytes → Found

  -- The loop of `ParseBody` over the lines: `before` and the start of a line, `line`, are read.
  unfoldable pub scan_lines : Option Bytes → Bytes → Bytes → Bytes → Found
  scan_lines boundary before line [] = plain (before ++ line)
  scan_lines boundary before line (c ∷ s) = elim (c == 10) [
    | false ↦ scan_lines boundary before (line ++ (c ∷ [])) s
    | true ↦ elim boundary [
      | none ↦ scan_lines none (before ++ (line ++ (10 ∷ []))) [] s
      | some b ↦ elim (has_prefix (codes "--" ++ b) (line ++ (10 ∷ []))) [
        | true ↦ split_at before (line ++ (10 ∷ s))
        | false ↦ scan_lines (some b) (before ++ (line ++ (10 ∷ []))) [] s
      ]
    ]
  ]

  -- Without the line end that it ends with; the last byte of an empty text panics.
  unfoldable pub chomp : Bytes → Option Bytes
  chomp [] = none
  chomp (c ∷ []) = if c == 10 then some [] else some (c ∷ [])
  chomp (c ∷ (d ∷ s)) = elim (chomp (d ∷ s)) [ none ↦ none | some t ↦ some (c ∷ t) ]

  -- The boundary that `ParseBody` looks for.
  abbrev pub boundary_param : Header → Option Bytes
  boundary_param h = elim (l.media_type (get h content_type_key)) [
    | none ↦ none
    | some ps ↦ some (param (lookup (codes "boundary") ps))
  ]

  abbrev parsed : MessageTool → Option Bytes → Found → Option MessageTool
  parsed m boundary (plain text) = some (record m { preamble = text })
  parsed m boundary (split_at before rest) = elim (chomp before) [
    | none ↦ none
    | some p ↦ some (record m { preamble = p; parts = l.read_parts (param boundary) rest })
  ]

  -- `ParseBody`; `none` is a panic.
  unfoldable pub parse_body : MessageTool → Option MessageTool
  unfolding scan_lines chomp
  parse_body m =
      let b = boundary_param m.article.header in parsed m b (scan_lines b [] [] m.article.body)

  -- `NewMessageToolFromArticle`
  unfoldable pub from_article : Article → Option MessageTool
  unfolding parse_body
  from_article a = parse_body (record { parts = []; preamble = []; article = a })
