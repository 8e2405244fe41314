-- ===== src/Backend/Invariant/Posting.antt =====
-- `Post` keeps the invariant of the databases.
use kothawoc.Prelude.{Bytes, Option, List}
use kothawoc.Header.{Header}
use kothawoc.Keytool.{Crypto, EasyEdKey}
use kothawoc.Databases.Monad.{Db}
use kothawoc.Databases.Keeps.{Keeps}
use kothawoc.Databases.Groups.{CardField}
use kothawoc.Databases.Articles.{Article}
use kothawoc.Databases.Invariant.{IsValid}
use kothawoc.Messages.Mime.{Library}
use kothawoc.Peering.Manager.{Node}
use kothawoc.Backend.{Session, World}
use kothawoc.Backend.Posting.{post}
use kothawoc.Backend.Keeps.Posting.{post-Keeps}
use kothawoc.Backend.Invariant.{IsValid-IsKept}

module _ (l : Library) (c : Crypto) (read_message : Bytes → Option (Header × Bytes))
    (remove_peer : Bytes → Db (Unit {0})) (decode_card : Bytes → List CardField)
    (my_key : EasyEdKey) (keeps : (id : Bytes) → Keeps IsValid (remove_peer id)) (world : World)
    (session : Session) where
  -- Whatever is posted, by whichever session, with whatever control message in it, and whichever calls of
  -- SQLite or the system fail on the way, the databases satisfy the invariant afterwards if they did before
  -- and `RemovePeer` keeps it, when `Post` returns an error or panics, too.
  pub post-IsValid :
      (article : Article) (node : Node)
      → IsValid node.store
      → IsValid
          (post l c read_message remove_peer decode_card my_key world session article node).1.store
  post-IsValid article node h =
      post-Keeps l c read_message remove_peer decode_card my_key
        (IsValid-IsKept c read_message remove_peer keeps my_key) world
        (λ m path raw good written. tt) session article node h
