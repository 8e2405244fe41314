-- ===== src/System/Peers/Steps.antt =====
-- Every step keeps who is a peer of a node.
use kothawoc.Prelude.{
  Bool, Bytes, beq, false, Option, none, some, List, [], ◌∷◌, ◌++◌, All, ◌≡◌, refl, ◌∙◌, arith,
}
use mathlib.Core.Path.{subst}
use kothawoc.Serror.{new}
use kothawoc.Header.{Header}
use kothawoc.Dict.{lookup}
use kothawoc.Table.{Table}
use kothawoc.Keytool.{Crypto, EasyEdKey, tor_id}
use kothawoc.Databases.State.{Store, PeerData}
use kothawoc.Databases.Monad.{Db}
use kothawoc.Databases.Keeps.{Keeps}
use kothawoc.Databases.Groups.{CardField}
use kothawoc.Databases.Server.{Command, serve}
use kothawoc.Databases.Client
use kothawoc.Databases.Client.{Returned, returned, crashed}
use kothawoc.Databases.Peers.Listing.{Lists, add-Lists, add_peer-Lists, get_peer_list-Lists}
use kothawoc.Databases.Stable.Lasting.{Lasts-IsStable}
use kothawoc.Databases.Stable.Server.{serve-Keeps}
use kothawoc.Databases.Invariant.Server.{Anything, any-Granted}
use kothawoc.Messages
use kothawoc.Messages.{Reply}
use kothawoc.Messages.Mime.{Library}
use kothawoc.Peering.{Peer, or_empty}
use kothawoc.Peering.Manager
use kothawoc.Peering.Manager.{
  Node, Linked, linked, with_store, join_peer, join_all, connect_all, drop_peer, forget,
  connect_peer,
}
use kothawoc.Backend.Keeps.{IsKept, Option-case, if-case}
use kothawoc.Backend.Keeps.Posting.{post-Keeps}
use kothawoc.System.{
  Step, posts, asks, adds, removes, connects, dials, feeds, starts, Reached, begin, later,
}
use kothawoc.System.Keeps.{send_messages-Keeps}
use kothawoc.System.Peers.{
  Extends, IsSomePeer, IsPeer, IsFed, IsFed-Extends, join_peer-IsFed, join_all-IsFed,
  Entries-forget, exists_error,
}

module _ (l : Library) (c : Crypto) (read_message : Bytes → Option (Header × Bytes))
    (remove_peer : Bytes → Db (Unit {0})) (decode_card : Bytes → List CardField)
    (my_key : EasyEdKey) where
  abbrev Fed : Node → Type 0
  Fed node = IsFed l c read_message remove_peer decode_card my_key node

  module _ (keeps : (k id : Bytes) → Keeps (λ s. Lists k s.peers) (remove_peer id)) where
    -- No command takes a peer out of the table.
    served :
        (cmd : Command) (s : Store)
        → Extends l c read_message remove_peer decode_card my_key s.peers
            (serve c read_message remove_peer cmd s).1.peers
    served cmd s k h =
        serve-Keeps {P = λ s. Lists k s.peers} {May = Anything}
          (Lasts-IsStable (λ t f. Lists k t) (λ torid d n t t' f. add-Lists k torid d n t t')
            (λ _ t f h'. h') (λ _ _ _ _ _ t f h'. h'))
          c read_message remove_peer (keeps k) cmd (any-Granted cmd) s h

    served-IsFed :
        (cmd : Command) (node : Node)
        → Fed node
        → Fed (with_store (serve c read_message remove_peer cmd node.store).1 node)
    served-IsFed cmd node h =
        IsFed-Extends l c read_message remove_peer decode_card my_key node _ (served cmd node.store)
          h

    -- What `AddPeer` does when its call of the databases has returned.
    added_case :
        (torid : Bytes) (node : Node) (r : Returned (Unit {0})) (s : Store)
        → Client.add_peer c read_message remove_peer torid node.store ≡ (r, s)
        → Fed (with_store s node)
        → Fed
            (elim r as (λ _. Reply × Node) [
              | crashed ↦ (Messages.panic, with_store s node)
              | returned _ e ↦ elim e [
                | some x ↦ (Messages.returned (some (exists_error x)), with_store s node)
                | none ↦ (
                  Messages.returned none,
                  join_peer c read_message remove_peer my_key torid (with_store s node),
                )
              ]
            ]).1
    added_case torid node crashed s e h = h
    added_case torid node (returned _ (some x)) s e h = h
    added_case torid node (returned a none) s e h =
        join_peer-IsFed l c read_message remove_peer decode_card my_key torid (with_store s node)
          (add_peer-Lists c read_message remove_peer torid node.store s a e) h

    added :
        (torid : Bytes) (node : Node)
        → Fed node
        → Fed (Manager.add_peer c read_message remove_peer my_key torid node).1
    unfolding Manager.add_peer Client.add_peer
    added torid node h =
        let (r, s) = Client.add_peer c read_message remove_peer torid node.store in
        if-case (λ (x : Reply × Node). Fed x.1) (beq torid (or_empty (tor_id c my_key))) _ _ h
          (added_case torid node r s refl (served-IsFed (Command.add_peer torid) node h))

    connected_case :
        (node : Node) (r : Returned (List Bytes)) (s : Store)
        → Client.get_peer_list c read_message remove_peer node.store ≡ (r, s)
        → Fed (with_store s node)
        → Fed
            (elim r as (λ _. Reply × Node) [
              | crashed ↦ (Messages.panic, with_store s node)
              | returned torids e ↦ elim e [
                | some x ↦ (Messages.returned (new (Manager.site 351) (some x)), with_store s node)
                | none ↦ (
                  Messages.returned none,
                  join_all c read_message remove_peer my_key torids (with_store s node),
                )
              ]
            ]).1
    connected_case node crashed s e h = h
    connected_case node (returned _ (some x)) s e h = h
    connected_case node (returned torids none) s e h =
        join_all-IsFed l c read_message remove_peer decode_card my_key torids (with_store s node)
          (get_peer_list-Lists c read_message remove_peer torids node.store s e) h

    connected :
        (node : Node) → Fed node → Fed (connect_all c read_message remove_peer my_key node).1
    unfolding connect_all Client.get_peer_list
    connected node h =
        let (r, s) = Client.get_peer_list c read_message remove_peer node.store in
        connected_case node r s refl (served-IsFed Command.get_peer_list node h)

    dropped :
        (torid : Bytes) (node : Node)
        → Fed node
        → Fed (drop_peer c read_message remove_peer my_key torid node).1
    unfolding drop_peer
    dropped torid node h =
        Option-case (λ (x : Reply × Node). Fed x.1) (lookup torid node.conns) _ _ h
          (λ _. record {
            conns =
                Entries-forget
                  (IsPeer l c read_message remove_peer decode_card my_key node.store.peers) torid
                  node.conns h.conns;
            workers = h.workers;
          })

    IsFed-IsKept : IsKept c read_message remove_peer my_key Anything Fed
    IsFed-IsKept = record {
      served = λ cmd _ node h. served-IsFed cmd node h;
      queued = λ torid cmd node h. record { conns = h.conns; workers = h.workers };
      added = added;
    }

    dialled_peer :
        (random : Bytes) (dialled : Option (Bytes × Bool)) (p p' : Peer)
        → connect_peer c my_key random dialled p ≡ linked p'
        → record p' { connected = false } ≡ record p { connected = false }
    unfolding connect_peer
    dialled_peer random dialled p p' e = ground (arith, e)

    replaced :
        (t : Table PeerData) (before : List Peer) (p p' : Peer) (after : List Peer)
        → (IsSomePeer l c read_message remove_peer decode_card my_key t p
            → IsSomePeer l c read_message remove_peer decode_card my_key t p')
        → All (IsSomePeer l c read_message remove_peer decode_card my_key t) (before ++ (p ∷ after))
        → All
            (IsSomePeer l c read_message remove_peer decode_card my_key t)
            (before ++ (p' ∷ after))
    replaced t [] p p' after f h = (f h.0, h.1)
    replaced t (q ∷ before) p p' after f h = (h.0, replaced t before p p' after f h.1)

    Step-IsFed :
        {node node' : Node}
        → Step l c read_message remove_peer decode_card my_key node node'
        → Fed node
        → Fed node'
    Step-IsFed {node} (posts world session article) h =
        post-Keeps l c read_message remove_peer decode_card my_key IsFed-IsKept world
          (λ m path raw good written. tt) session article node h
    Step-IsFed {node} (asks cmd _) h = served-IsFed cmd node h
    Step-IsFed {node} (adds torid) h = added torid node h
    Step-IsFed {node} (removes torid) h = dropped torid node h
    Step-IsFed {node} connects h = connected node h
    Step-IsFed {node} (dials before p after random dialled p' e q) h = record {
      conns = h.conns;
      workers =
          replaced node.store.peers before p p' after
            (λ (k, (listed, same)). (k, (listed, dialled_peer random dialled p p' q ∙ same)))
            (subst
              (λ ps.
                All (IsSomePeer l c read_message remove_peer decode_card my_key node.store.peers)
                  ps)
              e h.workers);
    }
    Step-IsFed {node} (feeds before p after random post e) h =
        IsFed-Extends l c read_message remove_peer decode_card my_key node _
          (λ k listed.
            send_messages-Keeps {P = λ s. Lists k s.peers} {May = Anything} l c read_message
              remove_peer (λ cmd _ s. served cmd s k) random post p node.store listed)
          h
    Step-IsFed {node} (starts t) h = record { conns = tt; workers = tt }

    -- In every state that a node reaches, by whatever is posted to it, asked of it and done to its peers,
    -- in whatever order, each peer in the map stands under its identifier, and that identifier and those of
    -- all peers whose worker runs stand in the table of peers; but for the connection, each is the peer that
    -- `NewPeer` makes for the identifier, if `RemovePeer` takes nobody out of the table.
    pub Reached-IsFed :
        (node : Node) → Reached l c read_message remove_peer decode_card my_key node → Fed node
    Reached-IsFed _ (begin faults torn) = record { conns = tt; workers = tt }
    Reached-IsFed _ (later r step) = Step-IsFed step (Reached-IsFed _ r)
