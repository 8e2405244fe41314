-- ===== src/Messages/Forging.antt =====
-- Messages that `Verify` accepts from anyone.
use kothawoc.Prelude.{Bytes, codes, true, some, ◌≡◌, sym, ◌∙◌}
use kothawoc.Header.{Header, get}
use kothawoc.Keytool.{Crypto, IsLawful}
use kothawoc.Torutils.Hex.{encode}
use kothawoc.Torutils.Honest.{IsSized}
use kothawoc.Databases.Articles.{signature_header}
use kothawoc.Messages.Mime.{Library, IsStandard}
use kothawoc.Messages.Tool.{MessageTool, write_raw, with_field, approved, verify}
use kothawoc.Messages.Signed.{write_raw-SameSigned}
use kothawoc.Messages.Signing.{
  IsSettled, verify-accepts, write_raw-IsSettled, field-SameSigned, get-approved, get_from,
  get_signature,
}

module _ (l : Library) (standard : IsStandard l) (c : Crypto) (lawful : IsLawful c)
    (sized : IsSized c) where
  -- Where the libraries keep their laws and the sizes of keys and signatures, a message that names
  -- any sender under From is accepted, if its text to sign is written and the boundary is the
  -- content type's own if there are several parts: whoever has a key signs it, and `Verify` does
  -- not compare From with the key.
  pub verify_any_sender :
      (k sender random random' t : Bytes) (m : MessageTool)
      → let claimed =
          with_field l (codes "From") sender (with_field l approved (encode (c.tor_public k)) m) in
        let forged = with_field l signature_header (l.encode32 (c.sign k t)) claimed in
        IsSettled l standard c lawful sized forged
        → (write_raw l random true claimed).0 ≡ some t
        → (get forged.article.header (codes "From") ≡ sender)
          × ((verify l c random' forged).0 ≡ some true)
  verify_any_sender k sender random random' t m settled text =
      let h : Header = m.article.header in
      let s : Bytes = l.encode32 (c.sign k t) in
      let claimed : MessageTool =
        with_field l (codes "From") sender (with_field l approved (encode (c.tor_public k)) m) in
      let forged : MessageTool = with_field l signature_header s claimed in
      (
        get_from h sender (encode (c.tor_public k)) s,
        verify-accepts l standard c lawful sized random' forged k t
            (write_raw-IsSettled l standard c lawful sized random' random forged settled
              ∙ (sym (
                    write_raw-SameSigned l random claimed forged
                      (field-SameSigned l standard c lawful sized claimed s))
                  ∙ text))
            (get-approved h sender (encode (c.tor_public k)) s) (get_signature _ s),
      )
