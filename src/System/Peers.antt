-- ===== src/System/Peers.antt =====
-- Who is a peer of a node, and who is fed by its workers.
pub mod Steps
use kothawoc.Prelude.{
  ℕ, Bytes, beq, Bool, true, false, Option, none, some, List, [], ◌∷◌, ◌++◌, All, ◌≡◌, refl, sym,
  ap, ◌∙◌, arith,
}
use mathlib.Core.Path.{subst}
use kothawoc.Serror.{Error, message, wrap, new}
use kothawoc.Header.{Header}
use kothawoc.Dict.{Dict, lookup, insert}
use kothawoc.Dict.Entries.{Entries, Entries-insert, Entries-lookup}
use kothawoc.Table.{Table}
use kothawoc.Keytool.{Crypto, EasyEdKey, tor_id}
use kothawoc.Databases.State.{Store, PeerData}
use kothawoc.Databases.Monad.{Db}
use kothawoc.Databases.Keeps.{Keeps}
use kothawoc.Databases.Groups.{CardField}
use kothawoc.Databases.Server.{Command, serve}
use kothawoc.Databases.Client
use kothawoc.Databases.Client.{Returned, returned, crashed}
use kothawoc.Databases.Peers.Listing.{Lists, add-Lists, add_peer-Lists, get_peer_list-Lists}
use kothawoc.Databases.Stable.{Granted}
use kothawoc.Databases.Stable.Lasting.{Lasts-IsStable}
use kothawoc.Databases.Stable.Server.{serve-Keeps}
use kothawoc.Databases.Invariant.Server.{Anything, any-Granted}
use kothawoc.Messages
use kothawoc.Messages.{Reply}
use kothawoc.Messages.Mime.{Library}
use kothawoc.Peering.{Peer, or_empty, send_messages}
use kothawoc.Peering.Manager
use kothawoc.Peering.Manager.{
  Node, Linked, linked, with_store, join_peer, join_all, connect_all, drop_peer, forget,
  connect_peer,
}
use kothawoc.Peering.Membership.{peer_of}
use kothawoc.Backend.Keeps.{IsKept, Option-case, if-case}
use kothawoc.Backend.Keeps.Posting.{post-Keeps}
use kothawoc.System.{
  Step, posts, asks, adds, removes, connects, dials, feeds, starts, Reached, begin, later,
}
use kothawoc.System.Keeps.{send_messages-Keeps}

pub Entries-forget :
    (G : Bytes → Peer → Type 0) (k : Bytes) (d : Dict Peer) → Entries G d → Entries G (forget k d)
unfolding forget
Entries-forget G k [] h = tt
Entries-forget G k ((j, p) ∷ d) h =
    let rest = Entries-forget G k d h.1 in if-case (λ x. Entries G x) (beq j k) _ _ rest (h.0, rest)

abbrev pub exists_error : Error → Error
exists_error x =
    wrap (Manager.site 397) (some (message "Peer already exists %s=%s") ∷ (some x ∷ []))

module _ (l : Library) (c : Crypto) (read_message : Bytes → Option (Header × Bytes))
    (remove_peer : Bytes → Db (Unit {0})) (decode_card : Bytes → List CardField)
    (my_key : EasyEdKey) where
  -- An identifier in the table of peers, and the peer that is made for it, whether connected or not.
  abbrev pub IsPeer : Table PeerData → Bytes → Peer → Type 0
  IsPeer t k p =
      Lists k t × (record p { connected = false } ≡ peer_of c read_message remove_peer my_key k)

  abbrev pub IsSomePeer : Table PeerData → Peer → Type 0
  IsSomePeer t p = (k : Bytes) × IsPeer t k p

  pub record IsFed (node : Node) : Type 0 where
    pub conns : Entries (IsPeer node.store.peers) node.conns
    pub workers : All (IsSomePeer node.store.peers) node.workers

  -- A table that lists more.
  abbrev pub Extends : Table PeerData → Table PeerData → Type 0
  Extends t t' = (k : Bytes) → Lists k t → Lists k t'

  pub conns-Extends :
      (t t' : Table PeerData) (d : Dict Peer)
      → Extends t t'
      → Entries (IsPeer t) d
      → Entries (IsPeer t') d
  conns-Extends t t' [] x h = tt
  conns-Extends t t' ((k, p) ∷ d) x h = ((x k h.0.0, h.0.1), conns-Extends t t' d x h.1)

  pub workers-Extends :
      (t t' : Table PeerData) (ps : List Peer)
      → Extends t t'
      → All (IsSomePeer t) ps
      → All (IsSomePeer t') ps
  workers-Extends t t' [] x h = tt
  workers-Extends t t' (p ∷ ps) x h =
      ((h.0.0, (x h.0.0 h.0.1.0, h.0.1.1)), workers-Extends t t' ps x h.1)

  pub IsFed-Extends :
      (node : Node) (s : Store)
      → Extends node.store.peers s.peers
      → IsFed node
      → IsFed (with_store s node)
  IsFed-Extends node s x h = record {
    conns = conns-Extends node.store.peers s.peers node.conns x h.conns;
    workers = workers-Extends node.store.peers s.peers node.workers x h.workers;
  }

  pub join_peer-IsFed :
      (torid : Bytes) (node : Node)
      → Lists torid node.store.peers
      → IsFed node
      → IsFed (join_peer c read_message remove_peer my_key torid node)
  unfolding join_peer
  join_peer-IsFed torid node listed h = record {
    conns = Entries-insert (IsPeer node.store.peers) torid _ node.conns (listed, refl) h.conns;
    workers = ((torid, (listed, refl)), h.workers);
  }

  pub join_all-IsFed :
      (torids : List Bytes) (node : Node)
      → All (λ k. Lists k node.store.peers) torids
      → IsFed node
      → IsFed (join_all c read_message remove_peer my_key torids node)
  unfolding join_all join_peer
  join_all-IsFed [] node listed h = h
  join_all-IsFed (torid ∷ torids) node listed h =
      join_all-IsFed torids (join_peer c read_message remove_peer my_key torid node) listed.1
        (join_peer-IsFed torid node listed.0 h)
