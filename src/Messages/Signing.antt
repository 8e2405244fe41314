-- ===== src/Messages/Signing.antt =====
-- What is signed, and what `Verify` accepts.
use kothawoc.Prelude.{
  Bytes, codes, beq, beq_self, true, false, Option, none, some, List, [], ◌∷◌, All, ◌≡◌, refl, sym,
  ap, ◌∙◌, arith,
}
use mathlib.Core.Path.{subst}
use kothawoc.Header.{Header, get, values, set, canonical, get-set, values-set}
use kothawoc.Keytool
use kothawoc.Keytool.{
  Crypto, IsLawful, EasyEdKey, tor_id, tor_pub_key, tor_sign, tor_priv_key, refused, sign_with,
}
use kothawoc.Torutils.Hex.{encode, decode_all-encode}
use kothawoc.Torutils.Honest.{IsSized}
use kothawoc.Databases.Articles.{signature_header}
use kothawoc.Messages.Mime.{Library, IsStandard, normal, normal-normal}
use kothawoc.Messages.Tool.{
  MessageTool, ok, signature_fields, body_text, write_raw, with_field, approved, sign, sign_text,
  verify, verify_text,
}
use kothawoc.Messages.Signed.{SameSigned, SameParts-refl, get-values, write_raw-SameSigned}

pub get-approved :
    (h : Header) (id p s : Bytes)
    → get (set (set (set h approved p) (codes "From") id) signature_header s) approved ≡ p
unfolding canonical beq
get-approved h id p s = simp get-set

pub get_from :
    (h : Header) (id p s : Bytes)
    → get (set (set (set h approved p) (codes "From") id) signature_header s) (codes "From") ≡ id
unfolding canonical beq
get_from h id p s = simp get-set

pub get_signature : (h : Header) (s : Bytes) → get (set h signature_header s) signature_header ≡ s
get_signature h s = simp (get-set, beq_self)

-- A field that is not one of the signed ones.
abbrev Unsigned : Bytes → Type 0
Unsigned k = All (λ j. beq (canonical k) (canonical j) ≡ false) signature_fields

signature-Unsigned : Unsigned signature_header
unfolding canonical beq
signature-Unsigned = ground arith

values-set_other :
    (h : Header) (k v : Bytes) (js : List Bytes)
    → All (λ j. beq (canonical k) (canonical j) ≡ false) js
    → All (λ j. values (set h k v) j ≡ values h j) js
values-set_other h k v [] e = tt
values-set_other h k v (j ∷ js) e =
    (ground (arith, values-set h k j v, e.0), values-set_other h k v js e.1)

All-sym :
    {A : Type 0} (f g : Bytes → A) (js : List Bytes)
    → All (λ j. f j ≡ g j) js
    → All (λ j. g j ≡ f j) js
All-sym f g [] h = tt
All-sym f g (j ∷ js) h = (sym h.0, All-sym f g js h.1)

module _ (l : Library) (standard : IsStandard l) (c : Crypto) (lawful : IsLawful c)
    (sized : IsSized c) where
  -- Where a public half of 32 bytes stands under Approved, and the signature of its private half
  -- over the text under the signature's field, the message is accepted.
  pub verify-accepts :
      (random : Bytes) (n : MessageTool) (k t : Bytes)
      → (write_raw l random true n).0 ≡ some t
      → get n.article.header approved ≡ encode (c.tor_public k)
      → get n.article.header signature_header ≡ l.encode32 (c.sign k t)
      → (verify l c random n).0 ≡ some true
  unfolding verify verify_text
  verify-accepts random n k t text key signature = ground (
    arith,
    text,
    key,
    signature,
    standard.decode32-encode32 (c.sign k t),
    decode_all-encode (c.tor_public k) (sized.public_IsByte k),
    sized.public_length k,
    sized.signature_length k t,
    lawful.verify-sign k t,
  )

  -- The key behind a signature.
  abbrev private_half : EasyEdKey → Bytes
  private_half e = elim e.key_type [
    | Keytool.private ↦ c.tor_private e.ed_key
    | Keytool.tor_private ↦ e.tor_priv_key
    | _ ↦ []
  ]

  signing_key :
      (e : EasyEdKey) (t p s : Bytes)
      → tor_pub_key c e ≡ Keytool.ok p
      → tor_sign c t e ≡ Keytool.ok s
      → (p ≡ c.tor_public (private_half e)) × (s ≡ c.sign (private_half e) t)
  unfolding tor_pub_key tor_sign sign_with tor_priv_key refused
  signing_key e t p s hp hs = ground arith

  -- A message as `Sign` leaves it.
  abbrev signed_with : Bytes → Bytes → Bytes → MessageTool → MessageTool
  signed_with id p s m =
      with_field l signature_header (l.encode32 s)
        (record (with_field l (codes "From") id (with_field l approved (encode p) m)) {
          preamble = normal m.preamble;
        })

  abbrev bytes_of : Keytool.Result Bytes → Bytes
  bytes_of (Keytool.ok b) = b
  bytes_of (Keytool.err _) = []

  abbrev text_of : Option Bytes → Bytes
  text_of (some b) = b
  text_of none = []

  -- What a message that is signed went through.
  pub sign-inv :
      (e : EasyEdKey) (random random' t' id : Bytes) (m m' : MessageTool)
      → tor_id c e ≡ Keytool.ok id
      → sign l c e random random' m ≡ (ok t', m')
      → (t : Bytes) × (p : Bytes) × (s : Bytes) × (tor_pub_key c e ≡ Keytool.ok p)
        × (tor_sign c t e ≡ Keytool.ok s)
        × ((write_raw l random true
              (with_field l (codes "From") id (with_field l approved (encode p) m))).0
            ≡ some t)
        × (m' ≡ record (signed_with id p s m) { preamble = normal (normal m.preamble) })
  unfolding sign sign_text write_raw
  sign-inv e random random' t' id m m' named h =
      let p : Bytes = bytes_of (tor_pub_key c e) in
      let n : MessageTool = with_field l (codes "From") id (with_field l approved (encode p) m) in
      let t : Bytes = text_of (write_raw l random true n).0 in
      let s : Bytes = bytes_of (tor_sign c t e) in
      (t, p, s, ground arith, ground arith, ground arith, ground arith)

  -- Does the boundary come from the content type, or is there no boundary to write? Then two
  -- writers put out the same text.
  abbrev pub IsSettled : MessageTool → Type 0
  IsSettled m =
      (r r' : Bytes)
      → body_text l r m.article.header m.parts ≡ body_text l r' m.article.header m.parts

  pub write_raw-IsSettled :
      (r r' : Bytes) (m : MessageTool)
      → IsSettled m
      → (write_raw l r true m).0 ≡ (write_raw l r' true m).0
  unfolding write_raw
  write_raw-IsSettled r r' m h = ground (arith, h r r')

  -- Setting the signature and normalising the text leave what is signed.
  signed-SameSigned :
      (m : MessageTool) (v : Bytes)
      → SameSigned m
          (record (with_field l signature_header v m) { preamble = normal (normal m.preamble) })
  signed-SameSigned m v = record {
    signed =
        All-sym (values (set m.article.header signature_header v)) (values m.article.header)
          signature_fields
          (values-set_other m.article.header signature_header v signature_fields
            signature-Unsigned);
    preamble = sym (normal-normal (normal m.preamble) ∙ normal-normal m.preamble);
    parts = SameParts-refl m.parts;
  }

  pub field-SameSigned :
      (m : MessageTool) (v : Bytes) → SameSigned m (with_field l signature_header v m)
  field-SameSigned m v = record {
    signed =
        All-sym (values (set m.article.header signature_header v)) (values m.article.header)
          signature_fields
          (values-set_other m.article.header signature_header v signature_fields
            signature-Unsigned);
    preamble = refl;
    parts = SameParts-refl m.parts;
  }

  -- Where the libraries keep their laws and the sizes of keys and signatures, what `Sign` makes is
  -- accepted by `Verify`, by whoever reads the message back with the same signed fields, signature,
  -- text and parts, up to the line ends of the latter two; the boundary must be the content type's
  -- own if there are several parts.
  pub verify-sign :
      (e : EasyEdKey) (random random' random2 t id : Bytes) (m m' n : MessageTool)
      → tor_id c e ≡ Keytool.ok id
      → sign l c e random random' m ≡ (ok t, m')
      → IsSettled n
      → SameSigned m' n
      → get n.article.header signature_header ≡ get m'.article.header signature_header
      → (verify l c random2 n).0 ≡ some true
  verify-sign e random random' random2 t id m m' n named h settled same signature =
      let (text, p, s, hp, hs, hw, hm) = sign-inv e random random' t id m m' named h in
      let (kp, ks) = signing_key e text p s hp hs in
      let n0 : MessageTool = with_field l (codes "From") id (with_field l approved (encode p) m) in
      let same' : SameSigned
          (record (signed_with id p s m) { preamble = normal (normal m.preamble) }) n =
        subst (λ x. SameSigned x n) hm same in
      verify-accepts random2 n (private_half e) text
        (write_raw-IsSettled random2 random n settled
          ∙ (sym (write_raw-SameSigned l random _ n same')
              ∙ (sym (write_raw-SameSigned l random n0 _ (signed-SameSigned n0 (l.encode32 s)))
                  ∙ hw)))
        (sym (get-values _ n.article.header approved same'.signed.1.1.1.1.0)
          ∙ (get-approved m.article.header id (encode p) (l.encode32 s) ∙ ap encode kp))
        (signature
          ∙ (ap (λ (x : MessageTool). get x.article.header signature_header) hm
              ∙ (get_signature _ (l.encode32 s) ∙ ap l.encode32 ks)))
