-- ===== src/Backend/Invariant.antt =====
-- The invariant of the databases in a node.
pub mod Posting
use kothawoc.Prelude.{Bytes, Option}
use kothawoc.Header.{Header}
use kothawoc.Keytool.{Crypto, EasyEdKey}
use kothawoc.Databases.Monad.{Db}
use kothawoc.Databases.Keeps.{Keeps}
use kothawoc.Databases.Stable.{Granted}
use kothawoc.Databases.Stable.Server.{serve-Keeps}
use kothawoc.Databases.Invariant.{IsValid}
use kothawoc.Databases.Invariant.Server.{Anything, IsValid-IsStable}
use kothawoc.Peering.Manager.{Node}
use kothawoc.Backend.Keeps.{IsKept, store-IsKept}

pub IsValid-IsKept :
    (c : Crypto) (read_message : Bytes → Option (Header × Bytes))
    (remove_peer : Bytes → Db (Unit {0})) (keeps : (id : Bytes) → Keeps IsValid (remove_peer id))
    (my_key : EasyEdKey)
    → IsKept c read_message remove_peer my_key Anything (λ (node : Node). IsValid node.store)
IsValid-IsKept c read_message remove_peer keeps my_key =
    store-IsKept c read_message remove_peer
      (serve-Keeps IsValid-IsStable c read_message remove_peer keeps) my_key
