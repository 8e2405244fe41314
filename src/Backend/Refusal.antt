-- ===== src/Backend/Refusal.antt =====
-- What `Post` refuses.
use kothawoc.Prelude.{
  Bytes, codes, beq, beq_iff, true, false, Option, none, some, List, [], ◌≡◌, ◌≢◌, ◌⊎◌, inl, inr,
  arith, ap, ◌∙◌, Option-cases,
}
use kothawoc.Serror.{Error}
use kothawoc.Header.{Header, get}
use kothawoc.Dict.{lookup}
use kothawoc.Keytool.{Crypto, EasyEdKey, tor_id, set_tor_private_key}
use kothawoc.Databases.State.{Store}
use kothawoc.Databases.Monad.{Db}
use kothawoc.Databases.Config
use kothawoc.Databases.Config.{device_key, as_bytes}
use kothawoc.Databases.Articles.{Article, signature_header}
use kothawoc.Databases.Groups.{CardField}
use kothawoc.Databases.Server.{serve, answer}
use kothawoc.Databases.Client
use kothawoc.Databases.Client.{returned, drop_error}
use kothawoc.Messages.Mime.{Library}
use kothawoc.Messages.Tool.{MessageTool, verify, write_raw}
use kothawoc.Messages.Body.{from_article}
use kothawoc.Peering.Manager.{Node}
use kothawoc.Backend.{Session, World}
use kothawoc.Backend.Posting.{post, sign_local, check, route, refuse, is_local, new_path}

-- `Verify` changes the preamble alone.
verify_article :
    (l : Library) (c : Crypto) (random : Bytes) (m : MessageTool)
    → (verify l c random m).1.article ≡ m.article
unfolding verify write_raw
verify_article l c random m = ground arith

device_key_calm :
    (c : Crypto) (read_message : Bytes → Option (Header × Bytes))
    (remove_peer : Bytes → Db (Unit {0})) (s : Store)
    → s.faults ≡ []
    → (key : Bytes) × (e : Option Error) × (Client.config_get_bytes c read_message remove_peer
          device_key s
        ≡ (returned key e, s))
unfolding Client.config_get_bytes serve answer drop_error Config.config_get_bytes
device_key_calm c read_message remove_peer s calm =
    elim (Option-cases (lookup device_key s.config)) [
      | inl e ↦ ([], none, ground (arith, calm, e))
      | inr (v, e) ↦ (as_bytes v, none, ground (arith, calm, e))
    ]

module _ (l : Library) (c : Crypto) (read_message : Bytes → Option (Header × Bytes))
    (remove_peer : Bytes → Db (Unit {0})) (decode_card : Bytes → List CardField)
    (my_key : EasyEdKey) (world : World) (session : Session) (node : Node) where
  route_pathless :
      (m : MessageTool)
      → get m.article.header (codes "Path") ≡ []
      → node.store.faults ≡ []
      → is_local l c read_message remove_peer decode_card my_key session ≡ false
      → route l c read_message remove_peer decode_card my_key world session m node ≡ refuse node
  unfolding route new_path tor_id set_tor_private_key beq
  route_pathless m pathless calm remote =
      let (key, e, read) = device_key_calm c read_message remove_peer node.store calm in
      ground (arith, read, pathless, remote)

module _ (l : Library) (c : Crypto) (read_message : Bytes → Option (Header × Bytes))
    (remove_peer : Bytes → Db (Unit {0})) (decode_card : Bytes → List CardField)
    (my_key : EasyEdKey) (world : World) (session : Session) (article : Article) (node : Node)
    (m : MessageTool) (parsed : from_article l article ≡ some m) where
  -- A message that is parsed, that `Verify` does not accept, and that `Post` does not sign itself, because
  -- it comes from a peer or has a signature, is refused, and nothing at all changes: no control message is acted
  -- upon and nothing is stored.
  pub post_unverified :
      (is_local l c read_message remove_peer decode_card my_key session ≡ false)
        ⊎ (get m.article.header signature_header ≢ [])
      → (verify l c (world.boundary 2) m).0 ≡ some false
      → post l c read_message remove_peer decode_card my_key world session article node
        ≡ refuse node
  unfolding post sign_local check
  post_unverified (inl remote) bad = ground (arith, parsed, remote, bad)
  post_unverified (inr signed) bad =
      ground (arith, parsed, beq_iff (get m.article.header signature_header) [], signed, bad)

  -- A message from a peer that is verified and has no path is refused, and nothing changes, when no call
  -- fails.
  pub post_without_path :
      node.store.faults ≡ []
      → is_local l c read_message remove_peer decode_card my_key session ≡ false
      → get m.article.header (codes "Path") ≡ []
      → (verify l c (world.boundary 2) m).0 ≡ some true
      → post l c read_message remove_peer decode_card my_key world session article node
        ≡ refuse node
  unfolding post sign_local check
  post_without_path calm remote pathless good = ground (
    arith,
    parsed,
    remote,
    good,
    route_pathless l c read_message remove_peer decode_card my_key world session node
        (verify l c (world.boundary 2) m).1
        (ap (λ (a : Article). get a.header (codes "Path")) (verify_article l c (world.boundary 2) m)
          ∙ pathless)
        calm remote,
  )
