-- ===== src/System/Valid.antt =====
-- The invariant of the databases in a node as a whole.
use kothawoc.Prelude.{Bytes, Option, List}
use kothawoc.Header.{Header}
use kothawoc.Keytool.{Crypto, EasyEdKey}
use kothawoc.Databases.Monad.{Db}
use kothawoc.Databases.Keeps.{Keeps}
use kothawoc.Databases.Groups.{CardField}
use kothawoc.Databases.Stable.Server.{serve-Keeps}
use kothawoc.Databases.Invariant.{IsValid}
use kothawoc.Databases.Invariant.Server.{Anything, IsValid-IsStable}
use kothawoc.Databases.Invariant.Reachable.{blank-IsValid, restarted-IsValid}
use kothawoc.Messages.Mime.{Library}
use kothawoc.Peering.Manager.{Node}
use kothawoc.System.{Reached}
use kothawoc.System.Keeps.{Reached-store}

module _ (l : Library) (c : Crypto) (read_message : Bytes → Option (Header × Bytes))
    (remove_peer : Bytes → Db (Unit {0})) (decode_card : Bytes → List CardField)
    (my_key : EasyEdKey) where
  -- In every state that a node reaches, by whatever is posted to it, asked of it and done to its peers,
  -- in whatever order, with rounds of the feed, the ends of its process and the faults of SQLite and the
  -- system in between, the databases satisfy the invariant, if `RemovePeer` keeps it.
  pub Reached-IsValid :
      ((id : Bytes) → Keeps IsValid (remove_peer id))
      → (node : Node) → Reached l c read_message remove_peer decode_card my_key node
      → IsValid node.store
  Reached-IsValid keeps =
      Reached-store {P = IsValid} {May = Anything} l c read_message remove_peer decode_card my_key
        (serve-Keeps IsValid-IsStable c read_message remove_peer keeps)
        (λ world m path raw good written. tt) restarted-IsValid blank-IsValid
