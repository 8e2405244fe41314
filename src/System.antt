-- ===== src/System.antt =====
-- A node as a whole: what its sessions, its peers' workers, the manager of its peers and the end of its
-- process do to it, in any order.
mod Keeps
pub mod Valid
pub mod Files
pub mod Peers
use kothawoc.Prelude.{ℕ, Bytes, Bool, Option, List, [], ◌∷◌, ◌++◌, ◌≡◌}
use kothawoc.Header.{Header}
use kothawoc.Serror.{Error}
use kothawoc.Keytool.{Crypto, EasyEdKey}
use kothawoc.Databases.Monad.{Db}
use kothawoc.Databases.Open.{new_backend_dbs}
use kothawoc.Databases.Groups.{CardField}
use kothawoc.Databases.Articles.{Article}
use kothawoc.Databases.Server.{Command, serve}
use kothawoc.Databases.Stable.{Granted}
use kothawoc.Databases.Invariant.Reachable.{blank, ended}
use kothawoc.Messages.Mime.{Library}
use kothawoc.Peering.{Peer, send_messages}
use kothawoc.Peering.Manager.{
  Node, with_store, add_peer, drop_peer, connect_all, connect_peer, Linked, linked,
}
use kothawoc.Backend.{Session, World}
use kothawoc.Backend.Posting.{post}

-- No article is stored but by `Post`.
abbrev pub Nothing : Header → Bytes → Type 0
Nothing h raw = ⊥

-- A process that starts at a time, with what is left on the disk.
abbrev pub started : ℕ → Node → Node
started t node = record {
  store = (new_backend_dbs t (ended node.store)).1;
  conns = [];
  queued = [];
  workers = [];
}

module _ (l : Library) (c : Crypto) (read_message : Bytes → Option (Header × Bytes))
    (remove_peer : Bytes → Db (Unit {0})) (decode_card : Bytes → List CardField)
    (my_key : EasyEdKey) where
  -- One step: a session posts an article; a session or the user has a command of the databases carried
  -- out; a peer is added or removed, or all are connected; a worker dials its peer, or sends it the next
  -- message; the process ends, in a panic or otherwise, and starts again.
  pub data Step (node : Node) : Node → Type 0 where
    posts :
        (world : World) (session : Session) (article : Article)
        → Step node
            (post l c read_message remove_peer decode_card my_key world session article node).1
    asks :
        (cmd : Command)
        → Granted Nothing cmd
        → Step node (with_store (serve c read_message remove_peer cmd node.store).1 node)
    adds : (torid : Bytes) → Step node (add_peer c read_message remove_peer my_key torid node).1
    removes : (torid : Bytes) → Step node (drop_peer c read_message remove_peer my_key torid node).1
    connects : Step node (connect_all c read_message remove_peer my_key node).1
    dials :
        (before : List Peer) (p : Peer) (after : List Peer) (random : Bytes)
        (dialled : Option (Bytes × Bool)) (p' : Peer)
        → node.workers ≡ before ++ (p ∷ after)
        → connect_peer c my_key random dialled p ≡ linked p'
        → Step node (record node { workers = before ++ (p' ∷ after) })
    feeds :
        (before : List Peer) (p : Peer) (after : List Peer) (random : Bytes)
        (post : Bytes → Option Error)
        → node.workers ≡ before ++ (p ∷ after)
        → Step node (
            with_store (send_messages l c read_message remove_peer random post p node.store).1 node)
    starts : (t : ℕ) → Step node (started t node)

  -- What the steps lead to from an empty disk, on which calls fail by any schedule.
  pub data Reached : Node → Type 0 where
    begin :
        (faults : List Bool) (torn : List (Option ℕ))
        → Reached (record { store = blank faults torn; conns = []; queued = []; workers = [] })
    later : {node node' : Node} → Reached node → Step node node' → Reached node'
