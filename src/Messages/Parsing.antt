-- ===== src/Messages/Parsing.antt =====
-- What `ParseBody` makes of a body.
use kothawoc.Prelude.{
  Bytes, codes, true, none, some, [], ◌∷◌, ◌++◌, ◌≡◌, refl, arith, append_assoc, append-nil,
}
use kothawoc.Dict.{lookup, Dict}
use kothawoc.Text.{has_prefix}
use kothawoc.Text.Laws.{Lacks}
use kothawoc.Header.{get}
use kothawoc.Databases.Articles.{Article}
use kothawoc.Messages.Mime.{Library}
use kothawoc.Messages.Tool.{param}
use kothawoc.Messages.Body.{scan_lines, plain, split_at, chomp, parse_body, from_article}

has_prefix-append : (p s : Bytes) → has_prefix p (p ++ s) ≡ true
unfolding has_prefix
has_prefix-append [] s = refl
has_prefix-append (c ∷ p) s = ground (arith, has_prefix-append p s)

module _ (l : Library) where
  -- Without a boundary the whole body is text.
  scan_lines-none :
      (before line s : Bytes) → scan_lines l none before line s ≡ plain (before ++ (line ++ s))
  unfolding scan_lines
  scan_lines-none before line [] = ground (arith, append-nil line)
  scan_lines-none before line (c ∷ s) = ground (
    arith,
    scan_lines-none (before ++ (line ++ (10 ∷ []))) [] s,
    scan_lines-none before (line ++ (c ∷ [])) s,
    append_assoc before (line ++ (10 ∷ [])) s,
    append_assoc line (10 ∷ []) s,
    append_assoc line (c ∷ []) s,
  )

  -- A first line that begins with the boundary's mark ends the search at once.
  scan_lines-boundary :
      (b line x s : Bytes)
      → Lacks 10 x
      → has_prefix (codes "--" ++ b) ((line ++ x) ++ (10 ∷ [])) ≡ true
      → scan_lines l (some b) [] line (x ++ (10 ∷ s)) ≡ split_at [] ((line ++ x) ++ (10 ∷ s))
  unfolding scan_lines
  scan_lines-boundary b line [] s h p = ground (arith, append-nil line)
  scan_lines-boundary b line (c ∷ x) s h p =
      ground (arith, append_assoc line (c ∷ []) x, scan_lines-boundary b (line ++ (c ∷ [])) x s h.1)

  -- The body of an article whose content type is no media type is its preamble, byte for byte.
  pub from_article_plain :
      (a : Article)
      → l.media_type (get a.header (codes "Content-Type")) ≡ none
      → from_article l a ≡ some (record { parts = []; preamble = a.body; article = a })
  unfolding from_article parse_body
  from_article_plain a h = ground (arith, scan_lines-none [] [] a.body)

  -- An article whose body begins with the line of its own boundary panics in `ParseBody`: the text
  -- before it is empty, and its last byte is looked at.
  pub from_article_crashes :
      (a : Article) (ps : Dict Bytes) (b x s : Bytes)
      → l.media_type (get a.header (codes "Content-Type")) ≡ some ps
      → param (lookup (codes "boundary") ps) ≡ b
      → Lacks 10 ((codes "--" ++ b) ++ x)
      → a.body ≡ ((codes "--" ++ b) ++ x) ++ (10 ∷ s)
      → from_article l a ≡ none
  unfolding from_article parse_body chomp
  from_article_crashes a ps b x s media named one_line starts =
      let y : Bytes = (codes "--" ++ b) ++ x in
      ground (
        arith,
        scan_lines-boundary b [] y s one_line,
        append_assoc (codes "--" ++ b) x (10 ∷ []),
        has_prefix-append (codes "--" ++ b) (x ++ (10 ∷ [])),
      )
