-- ===== src/Peering/Membership.antt =====
-- Who is a peer of a node.
use kothawoc.Prelude.{
  Bytes, beq, beq_iff, Option, none, some, List, [], ◌∷◌, map, ◌≡◌, inl, inr, refl, arith,
  Bool-cases,
}
use kothawoc.Header.{Header}
use kothawoc.Dict.{lookup, lookup-insert}
use kothawoc.Table.{Row, find_key}
use kothawoc.Keytool.{Crypto, EasyEdKey, empty_key, set_tor_id}
use kothawoc.Databases.State.{Store, PeerData}
use kothawoc.Databases.Monad.{Db}
use kothawoc.Databases.Peers
use kothawoc.Databases.Server.{serve, answer, answer_error}
use kothawoc.Databases.Client
use kothawoc.Databases.Client.{returned, only_error, pass_error}
use kothawoc.Messages
use kothawoc.Peering.{Peer, new_peer}
use kothawoc.Peering.Manager.{
  Node, PeerCommand, join_peer, join_all, connect_all, drop_peer, forget, take_sendme, send_me,
}

module _ (c : Crypto) (read_message : Bytes → Option (Header × Bytes))
    (remove_peer : Bytes → Db (Unit {0})) (my_key : EasyEdKey) where
  -- `Sendme` never returns, whatever the state, the peer, the list and the options: the worker of the
  -- peer panics, or the manager does where there is no such peer.
  pub sendme_crashes :
      (torid list options : Bytes) (node : Node)
      → (send_me c read_message remove_peer my_key torid list options node).0 ≡ Messages.panic
  unfolding send_me take_sendme Client.group_update_subscriptions serve answer_error only_error
  sendme_crashes torid list options node = ground arith

  -- The peer that an identifier stands for.
  abbrev pub peer_of : Bytes → Peer
  peer_of torid = new_peer c my_key (set_tor_id c torid empty_key).1

  join_all-lookup :
      (torid : Bytes) (torids : List Bytes) (node : Node)
      → lookup torid node.conns ≡ some (peer_of torid)
      → lookup torid (join_all c read_message remove_peer my_key torids node).conns
        ≡ some (peer_of torid)
  unfolding join_all join_peer
  join_all-lookup torid [] node h = h
  join_all-lookup torid (i ∷ torids) node h =
      join_all-lookup torid torids (join_peer c read_message remove_peer my_key i node)
        (ground (arith, h, lookup-insert i torid (peer_of i) node.conns, beq_iff i torid))

  join_all-member :
      (torid : Bytes) (rows : List (Row PeerData)) (r : Row PeerData) (node : Node)
      → find_key torid rows ≡ some r
      → lookup torid (join_all c read_message remove_peer my_key (map (λ q. q.key) rows) node).conns
        ≡ some (peer_of torid)
  unfolding join_all join_peer find_key
  join_all-member torid [] r node h = ground (arith, h)
  join_all-member torid (q ∷ rows) r node h = elim (Bool-cases (beq q.key torid)) [
    | inl same ↦
        join_all-lookup torid (map (λ q. q.key) rows)
          (join_peer c read_message remove_peer my_key q.key node)
          (ground (
            arith,
            same,
            lookup-insert q.key torid (peer_of q.key) node.conns,
            beq_iff q.key torid,
          ))
    | inr other ↦
        join_all-member torid rows r (join_peer c read_message remove_peer my_key q.key node)
          (ground (arith, h, other))
  ]

  get_peer_list_calm :
      (s : Store)
      → s.faults ≡ []
      → Client.get_peer_list c read_message remove_peer s
        ≡ (returned (map (λ r. r.key) s.peers.rows) none, s)
  unfolding Client.get_peer_list pass_error serve answer Peers.get_peer_list
  get_peer_list_calm s calm = ground (arith, calm)

  forget-lookup : (k : Bytes) (d : List (Bytes × Peer)) → lookup k (forget k d) ≡ none
  unfolding lookup forget
  forget-lookup k [] = refl
  forget-lookup k ((j, p) ∷ d) = ground (arith, forget-lookup k d)

  -- `RemovePeer` of a peer in the map takes it out of the map and leaves the databases alone; so, when no
  -- call fails, the next `Connect` makes a peer of everyone that the table of peers lists, the one that
  -- was removed included.
  pub removed_peer_returns :
      (torid other : Bytes) (p : Peer) (r q : Row PeerData) (node : Node)
      → node.store.faults ≡ []
      → lookup torid node.conns ≡ some p
      → find_key torid node.store.peers.rows ≡ some r
      → find_key other node.store.peers.rows ≡ some q
      → let (gone, node') = drop_peer c read_message remove_peer my_key torid node in
        let (back, node'') = connect_all c read_message remove_peer my_key node' in
        (gone ≡ Messages.returned none)
        × (lookup torid node'.conns ≡ none)
        × (node'.store ≡ node.store)
        × (back ≡ Messages.returned none)
        × (lookup torid node''.conns ≡ some (peer_of torid))
        × (lookup other node''.conns ≡ some (peer_of other))
  unfolding drop_peer connect_all
  removed_peer_returns torid other p r q node calm known listed other_listed =
      let list = get_peer_list_calm node.store calm in
      let left : Node = record node {
        conns = forget torid node.conns;
        queued = (torid, PeerCommand.remove) ∷ node.queued;
      } in
      (
        ground (arith, known),
        ground (arith, known, forget-lookup torid node.conns),
        ground (arith, known),
        ground (arith, known, list),
        ground (arith, known, list, join_all-member torid node.store.peers.rows r left listed),
        ground
            (arith, known, list, join_all-member other node.store.peers.rows q left other_listed),
      )
