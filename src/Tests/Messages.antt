-- ===== src/Tests/Messages.antt =====
-- Messages that a node signs, and messages that others make up.
use kothawoc.Prelude.{Bytes, codes, beq, true, none, some, [], ◌∷◌, ◌++◌, ◌≡◌, refl, arith}
use kothawoc.Header.{Header, get, values}
use kothawoc.Text.{join, split}
use kothawoc.Keytool
use kothawoc.Torutils.Hex.{encode}
use kothawoc.Databases.Articles.{Article, signature_header}
use kothawoc.Databases.Groups.{permitted, moderated}
use kothawoc.Messages.{MimePart, scan}
use kothawoc.Messages.Mime.{Library, IsStandard, multipart, without_returns}
use kothawoc.Messages.Body.{from_article}
use kothawoc.Messages.Delivery.Verified.{delivered-verify}
use kothawoc.Messages.Tool.{
  MessageTool, Written, ok, err, panic, sign, verify, write_raw, with_field, approved,
}
use kothawoc.Messages.Signed.{SameSigned, SameParts-refl}
use kothawoc.Messages.Signing.{verify-sign}
use kothawoc.Messages.Forging.{verify_any_sender}
use kothawoc.Messages.Create.{group_parts, mod_str}
use kothawoc.Messages.Described.{scan-group_parts}
use kothawoc.Tests.Handshake.{sealing, sealing-IsLawful, sealing-IsSized, shared, client_key}

-- No content type is a media type, formats are written as they are, and base32 changes nothing.
abbrev pub plain : Library
plain = record {
  media_type = λ s. none;
  expand = λ s. s;
  encode32 = λ s. s;
  decode32 = λ s. (s, true);
  read_parts = λ b s. [];
  visit = λ h. h;
}

plain-IsStandard : IsStandard plain
plain-IsStandard = record { decode32-encode32 = λ s. refl }

-- A message with these fields.
abbrev pub message : Header → MessageTool
message h = record {
  parts = [];
  preamble = codes "hi";
  article = record { header = h; body = codes "hi"; bytes = 2; lines = 1 };
}

abbrev text_of : Written → Bytes
text_of (ok t) = t
text_of (err _) = []
text_of panic = []

abbrev signed : Written × MessageTool
signed = sign plain sealing client_key [] [] (message [])

same : (m : MessageTool) → SameSigned m m
same m = record {
  signed = (
    refl,
    (
      refl,
      (refl, (refl, (refl, (refl, (refl, (refl, (refl, (refl, (refl, (refl, (refl, tt))))))))))),
    ),
  );
  preamble = refl;
  parts = SameParts-refl m.parts;
}

verify-sign_example : (verify plain sealing (codes "b") signed.1).0 ≡ some true
unfolding sign Keytool.tor_id Keytool.tor_pub_key Keytool.tor_sign
verify-sign_example =
    verify-sign plain plain-IsStandard sealing sealing-IsLawful sealing-IsSized client_key [] []
      (codes "b") (text_of signed.0) shared (message []) signed.1 signed.1 refl refl (λ r r'. refl)
      (same signed.1) refl

-- What anyone signs who says that it is from `abc`.
abbrev claim : Bytes
claim =
    codes "From: abc"
    ++ (13 ∷ 10 ∷ (codes "Approved: " ++ (encode shared ++ (13 ∷ 10 ∷ (13 ∷ 10 ∷ codes "hi")))))

verify_any_sender_example :
    let forged = with_field plain signature_header (sealing.sign (codes "k") claim) (
      with_field plain
        (codes "From")
        (codes "abc")
        (with_field plain approved (encode shared) (message []))) in
    (get forged.article.header (codes "From") ≡ codes "abc")
    × ((verify plain sealing (codes "b") forged).0 ≡ some true)
unfolding write_raw values kothawoc.Dict.lookup kothawoc.Header.set kothawoc.Dict.insert beq
    kothawoc.Header.canonical encode
verify_any_sender_example =
    verify_any_sender plain plain-IsStandard sealing sealing-IsLawful sealing-IsSized (codes "k")
      (codes "abc") [] (codes "b") claim (message []) (λ r r'. refl) refl

scan-group_parts_example :
    (scan
        (λ b. b)
        1
        (group_parts (codes "abc.lounge") (codes "A quiet place") (mod_str permitted))
        []
        none
      ≡ some (codes "quiet place", none))
    × (scan
          (λ b. b)
          0
          (group_parts (codes "abc.lounge") (codes "A quiet place") (mod_str moderated))
          []
          none
        ≡ some (codes "quiet place", none))
unfolding join split
scan-group_parts_example =
    scan-group_parts (codes "abc.lounge") (codes "A quiet place") (codes "A")
      (codes "quiet" ∷ codes "place" ∷ []) (ground arith) (ground arith) (ground arith) refl
      (λ b. b)

abbrev part : Bytes → MimePart
part s = record { header = []; content = s }

-- Every content type is of several parts with the boundary `xx`, and the reader finds these two.
abbrev mixed : Library
mixed = record plain {
  media_type = λ s. some ((codes "boundary", codes "xx") ∷ []);
  read_parts = λ b s. part (codes "one") ∷ (part (codes "two") ∷ []);
}

abbrev letter : MessageTool
letter = record {
  parts = part (codes "one") ∷ (part (codes "two") ∷ []);
  preamble = codes "hi";
  article = record { header = []; body = []; bytes = 0; lines = 0 };
}

abbrev signed_letter : Written × MessageTool
signed_letter = sign mixed sealing client_key [] [] letter

abbrev letter_text : Bytes
letter_text = codes "hi" ++ (13 ∷ 10 ∷ multipart (codes "xx") letter.parts)

abbrev letter_article : Article
letter_article = record {
  header = signed_letter.1.article.header;
  body = without_returns letter_text;
  bytes = 0;
  lines = 0;
}

delivered-verify_example :
    (n : MessageTool) × (from_article mixed letter_article ≡ some n)
    × SameSigned signed_letter.1 n
    × ((verify mixed sealing (codes "b") n).0 ≡ some true)
unfolding sign Keytool.tor_id Keytool.tor_pub_key Keytool.tor_sign kothawoc.Dict.lookup beq split
    kothawoc.Text.has_prefix
delivered-verify_example =
    delivered-verify mixed client_key sealing [] [] (text_of signed_letter.0) letter_text shared
      (codes "xx") letter signed_letter.1 (part (codes "one")) (part (codes "two")) []
      ((codes "boundary", codes "xx") ∷ []) letter_article refl refl refl refl refl refl (refl, tt)
      refl (record { fields = (same signed_letter.1).signed; signature = refl; body = refl })
      (codes "b") (record { decode32-encode32 = λ s. refl }) sealing-IsLawful sealing-IsSized refl
      (SameParts-refl letter.parts)
