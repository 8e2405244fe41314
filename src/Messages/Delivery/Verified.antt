-- ===== src/Messages/Delivery/Verified.antt =====
-- What is signed at one node, carried to another and read there.
use kothawoc.Prelude.{
  Bytes, codes, true, false, some, List, [], ◌∷◌, ◌++◌, All, ◌≡◌, refl, sym, ap, ◌∙◌, arith,
}
use kothawoc.Dict.{Dict, lookup}
use kothawoc.Header.{Header, get, values}
use kothawoc.Keytool
use kothawoc.Keytool.{Crypto, IsLawful, EasyEdKey, tor_id}
use kothawoc.Torutils.Honest.{IsSized}
use kothawoc.Databases.Articles.{Article, signature_header}
use kothawoc.Messages.{MimePart}
use kothawoc.Messages.Mime.{
  Library, IsStandard, without_returns, normal, normal-normal, line_end, is_boundary, multipart,
  without_returns_clean,
}
use kothawoc.Messages.Tool.{
  MessageTool, ok, signature_fields, content_type_key, header_text, body_text, write_raw, sign,
  sign_text, verify,
}
use kothawoc.Messages.Body.{from_article, parse_body}
use kothawoc.Messages.Signed.{SameSigned, SameParts, get-values}
use kothawoc.Messages.Signing.{verify-sign}
use kothawoc.Messages.Delivery.{
  Unmarked, without_returns-append, without_returns-Lacks, is_boundary-Lacks, multipart-starts,
}
use kothawoc.Messages.Delivery.Scanning.{chomp-line, scan_lines-Unmarked}

-- What is left of a message with this text after the header: the signed fields and the signature, and
-- the text without carriage returns, as the reader of NNTP's dot lines hands it over.
pub record IsCarried (text : Bytes) (m : MessageTool) (a : Article) : Type 0 where
  pub fields : All (λ k. values m.article.header k ≡ values a.header k) signature_fields
  pub signature : get a.header signature_header ≡ get m.article.header signature_header
  pub body : a.body ≡ without_returns text

append_cancel : (h s t : Bytes) → h ++ s ≡ h ++ t → s ≡ t
append_cancel [] s t e = e
append_cancel (c ∷ h) s t e = append_cancel h s t (ground (arith, e))

module _ (l : Library) where
  -- With a boundary of its own, the text of the parts does not depend on what a writer chooses.
  body_text-boundary :
      (r r' b : Bytes) (h : Header) (ds : Dict Bytes) (ps : List MimePart)
      → l.media_type (get h content_type_key) ≡ some ds
      → lookup (codes "boundary") ds ≡ some b
      → is_boundary b ≡ true
      → body_text l r h ps ≡ body_text l r' h ps
  unfolding body_text
  body_text-boundary r r' b h ds [] media named good = refl
  body_text-boundary r r' b h ds (p ∷ []) media named good = refl
  body_text-boundary r r' b h ds (p ∷ (q ∷ ps)) media named good = ground arith

  body_text-parts :
      (r b : Bytes) (h : Header) (ds : Dict Bytes) (p q : MimePart) (ps : List MimePart)
      → l.media_type (get h content_type_key) ≡ some ds
      → lookup (codes "boundary") ds ≡ some b
      → is_boundary b ≡ true
      → body_text l r h (p ∷ (q ∷ ps)) ≡ some (line_end ++ multipart b (p ∷ (q ∷ ps)))
  unfolding body_text
  body_text-parts r b h ds p q ps media named good = ground arith

  -- A body with a text, and behind it the parts: what `ParseBody` finds.
  from_article-parts :
      (a : Article) (ds : Dict Bytes) (b text s : Bytes)
      → l.media_type (get a.header content_type_key) ≡ some ds
      → lookup (codes "boundary") ds ≡ some b
      → is_boundary b ≡ true
      → Unmarked b text
      → a.body ≡ text ++ (10 ∷ ((codes "--" ++ b) ++ (10 ∷ s)))
      → from_article l a
        ≡ some (record {
          parts = l.read_parts b ((codes "--" ++ b) ++ (10 ∷ s));
          preamble = text;
          article = a;
        })
  unfolding from_article parse_body
  from_article-parts a ds b text s media named good clear body = ground (
    arith,
    media,
    named,
    body,
    scan_lines-Unmarked l b text s (is_boundary-Lacks b good).1 clear,
    chomp-line l text,
  )

  -- What is sent with the signed message.
  sign-written :
      (c : Crypto) (e : EasyEdKey) (random random' t body : Bytes) (m m' : MessageTool)
      → sign l c e random random' m ≡ (ok t, m')
      → body_text l random' m'.article.header m'.parts ≡ some body
      → (t ≡ header_text l false m'.article.header ++ (l.expand m'.preamble ++ body))
        × (m'.preamble ≡ normal m.preamble)
  unfolding sign sign_text write_raw
  sign-written c e random random' t body m m' h made =
      (ground (arith, normal-normal m.preamble), ground (arith, normal-normal m.preamble))

  without_returns_twice : (s : Bytes) → without_returns (without_returns s) ≡ without_returns s
  without_returns_twice s = without_returns-Lacks (without_returns s) (without_returns_clean s)

  -- A text without carriage returns has the same normal form.
  normal-without_returns : (s : Bytes) → normal (without_returns s) ≡ normal s
  unfolding normal
  normal-without_returns s = rw (without_returns_twice s) refl

  module _ (e : EasyEdKey) (c : Crypto) (random random' t text id b : Bytes) (m m' : MessageTool)
      (p q : MimePart) (ps : List MimePart) (ds : Dict Bytes) (a : Article)
      (signed : sign l c e random random' m ≡ (ok t, m')) (several : m'.parts ≡ p ∷ (q ∷ ps))
      (media : l.media_type (get m'.article.header content_type_key) ≡ some ds)
      (named : lookup (codes "boundary") ds ≡ some b) (good : is_boundary b ≡ true)
      (literal : l.expand m'.preamble ≡ m'.preamble)
      (clear : Unmarked b (without_returns m'.preamble))
      (sent : t ≡ header_text l false m'.article.header ++ text)
      (carried : IsCarried text m' a) where
    carried_body :
        a.body ≡ without_returns m'.preamble ++ (10 ∷ without_returns (multipart b (p ∷ (q ∷ ps))))
    carried_body =
        let whole : Bytes = multipart b (p ∷ (q ∷ ps)) in
        let made : body_text l random' m'.article.header m'.parts ≡ some (line_end ++ whole) =
          (ap (λ ms. body_text l random' m'.article.header ms) several
            ∙ body_text-parts random' b m'.article.header ds p q ps media named good) in
        let (written, _) = sign-written c e random random' t (line_end ++ whole) m m' signed made in
        let same : text ≡ l.expand m'.preamble ++ (line_end ++ whole) =
          append_cancel (header_text l false m'.article.header) _ _ (sym sent ∙ written) in
        let ends : without_returns (line_end ++ whole) ≡ 10 ∷ without_returns whole =
          (unfold without_returns in refl) in
        ground (
          arith,
          carried.body,
          same,
          literal,
          without_returns-append m'.preamble (line_end ++ whole),
          ends,
        )

    carried_media : l.media_type (get a.header content_type_key) ≡ some ds
    carried_media =
        ap l.media_type (
          sym (
            get-values m'.article.header a.header content_type_key
              carried.fields.1.1.1.1.1.1.1.1.1.1.1.0))
        ∙ media

    abbrev read_back : MessageTool
    read_back = record {
      parts = l.read_parts b (without_returns (multipart b m'.parts));
      preamble = without_returns m'.preamble;
      article = a;
    }

    from_article-carried : from_article l a ≡ some read_back
    from_article-carried =
        let (s, starts) = multipart-starts b p (q ∷ ps) (is_boundary-Lacks b good).0 in
        ground (
          arith,
          several,
          starts,
          from_article-parts a ds b (without_returns m'.preamble) s carried_media named good clear
              (carried_body ∙ ap (λ x. without_returns m'.preamble ++ (10 ∷ x)) starts),
        )

    -- Where the libraries keep their laws and the sizes of keys and signatures, a message of two
    -- parts or more whose boundary is a legal one of its own, and whose text neither holds a verb of
    -- `Sprintf` nor a line that begins with the boundary's mark, is signed at one node, carried to
    -- another with its signed fields and its signature, the text after the header without
    -- carriage returns, and read there: it is read without a panic, agrees in everything that is signed,
    -- and `Verify` accepts it, provided that the reader of multipart gives the parts back.
    pub delivered-verify :
        (random2 : Bytes)
        → IsStandard l
        → IsLawful c
        → IsSized c
        → tor_id c e ≡ Keytool.ok id
        → SameParts m'.parts (l.read_parts b (without_returns (multipart b m'.parts)))
        → (n : MessageTool) × (from_article l a ≡ some n)
          × SameSigned m' n
          × ((verify l c random2 n).0 ≡ some true)
    delivered-verify random2 standard lawful sized keyed parts =
        let same : SameSigned m' read_back = record {
          signed = carried.fields;
          preamble = sym (normal-without_returns m'.preamble);
          parts = parts;
        } in
        (
          read_back,
          from_article-carried,
          same,
          verify-sign l standard c lawful sized e random random' random2 t id m m' read_back keyed
              signed
              (λ r r'.
                body_text-boundary r r' b a.header ds read_back.parts carried_media named good)
              same carried.signature,
        )
