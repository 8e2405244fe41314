-- ===== src/Messages/Signed.antt =====
-- Which messages have the same text to sign.
use kothawoc.Prelude.{
  Bytes, codes, true, List, [], ◌∷◌, All, ◌≡◌, refl, Option-cases, inl, inr, arith,
}
use kothawoc.Dict.{lookup}
use kothawoc.Header.{Header, get, values}
use kothawoc.Messages.{MimePart}
use kothawoc.Messages.Mime.{Library, normal, parts_text, multipart, line_end}
use kothawoc.Messages.Tool.{
  MessageTool, signature_fields, signed_lines, header_text, body_text, write_raw, boundary_of,
}

-- Parts that are written alike.
abbrev pub SameParts : List MimePart → List MimePart → Type 0
SameParts [] [] = Unit
SameParts [] (q ∷ qs) = ⊥
SameParts (p ∷ ps) [] = ⊥
SameParts (p ∷ ps) (q ∷ qs) =
    (p.header ≡ q.header) × (normal p.content ≡ normal q.content) × SameParts ps qs

-- Messages that agree in the signed fields, and in the text and the parts up to their line ends.
pub record SameSigned (m n : MessageTool) : Type 0 where
  pub signed : All (λ k. values m.article.header k ≡ values n.article.header k) signature_fields
  pub preamble : normal m.preamble ≡ normal n.preamble
  pub parts : SameParts m.parts n.parts

signed_lines-same :
    (ks : List Bytes) (h j : Header)
    → All (λ k. values h k ≡ values j k) ks
    → signed_lines ks h ≡ signed_lines ks j
unfolding signed_lines
signed_lines-same [] h j e = refl
signed_lines-same (k ∷ ks) h j e = ground (arith, e.0, signed_lines-same ks h j e.1)

parts_text-same :
    (b before : Bytes) (ps qs : List MimePart)
    → SameParts ps qs
    → parts_text b before ps ≡ parts_text b before qs
unfolding parts_text
parts_text-same b before [] [] e = refl
parts_text-same b before [] (q ∷ qs) e = absurd e
parts_text-same b before (p ∷ ps) [] e = absurd e
parts_text-same b before (p ∷ ps) (q ∷ qs) e =
    ground (arith, e.0, e.1, parts_text-same b line_end ps qs e.2)

pub get-values : (h j : Header) (k : Bytes) → values h k ≡ values j k → get h k ≡ get j k
unfolding get values
get-values h j k e = ground arith

module _ (l : Library) where
  body_text-same :
      (random : Bytes) (h j : Header) (ps qs : List MimePart)
      → get h (codes "Content-Type") ≡ get j (codes "Content-Type")
      → SameParts ps qs
      → body_text l random h ps ≡ body_text l random j qs
  unfolding body_text multipart
  body_text-same random h j [] [] e s = refl
  body_text-same random h j [] (q ∷ qs) e s = absurd s
  body_text-same random h j (p ∷ ps) [] e s = absurd s
  body_text-same random h j (p ∷ []) (q ∷ []) e s = refl
  body_text-same random h j (p ∷ []) (q ∷ (q' ∷ qs)) e s = absurd s.2
  body_text-same random h j (p ∷ (p' ∷ ps)) (q ∷ []) e s = absurd s.2
  body_text-same random h j (p ∷ (p' ∷ ps)) (q ∷ (q' ∷ qs)) e s =
      let same : (b : Bytes) → parts_text b [] (p ∷ (p' ∷ ps)) ≡ parts_text b [] (q ∷ (q' ∷ qs)) =
        λ b. parts_text-same b [] (p ∷ (p' ∷ ps)) (q ∷ (q' ∷ qs)) s in
      elim (Option-cases (l.media_type (get j (codes "Content-Type")))) [
        | inl none' ↦ ground (arith, e)
        | inr (ds, found) ↦
            ground (arith, e, same (boundary_of random (lookup (codes "boundary") ds)))
      ]

  -- Messages that agree in what is signed have the same text to sign.
  pub write_raw-SameSigned :
      (random : Bytes) (m n : MessageTool)
      → SameSigned m n
      → (write_raw l random true m).0 ≡ (write_raw l random true n).0
  unfolding write_raw header_text
  write_raw-SameSigned random m n s =
      let ct = codes "Content-Type" in
      ground (
        arith,
        signed_lines-same signature_fields m.article.header n.article.header s.signed,
        body_text-same random m.article.header n.article.header m.parts n.parts
            (get-values m.article.header n.article.header ct s.signed.1.1.1.1.1.1.1.1.1.1.1.0)
            s.parts,
        s.preamble,
      )

pub SameParts-refl : (ps : List MimePart) → SameParts ps ps
SameParts-refl [] = tt
SameParts-refl (p ∷ ps) = (refl, refl, SameParts-refl ps)
