-- ===== src/Peering/Manager.antt =====
-- `Peers` of internal/peering/peering.go: one round of the loop of its `Worker` for each command, as the
-- method that sends the command sees it, and the commands of a peer's own `Worker`.
use kothawoc.Prelude.{
  ℕ, Bool, Bytes, codes, beq, true, Option, none, some, List, [], ◌∷◌, get_elem?, if◌then◌else◌,
}
use kothawoc.Serror.{Caller, message, wrap, new, errorf, format}
use kothawoc.Dict.{Dict, lookup, insert}
use kothawoc.Text.{split_on}
use kothawoc.Header.{Header}
use kothawoc.Keytool.{Crypto, EasyEdKey, empty_key, tor_id, set_tor_id}
use kothawoc.Torutils
use kothawoc.Torutils.{client_handshake}
use kothawoc.Databases.State.{Store, Value}
use kothawoc.Databases.Monad.{Db}
use kothawoc.Databases.Client
use kothawoc.Databases.Client.{Returned, returned, crashed}
use kothawoc.Messages
use kothawoc.Messages.{Reply}
use kothawoc.Messages.Mime.{line_end}
use kothawoc.Messages.Tool.{MessageTool}
use kothawoc.Peering.{Peer, new_peer, or_empty}

-- A `PeeringMessage` in the channel of a peer; `remove` is one with the command RemovePeer, `refresh` the
-- empty one of the timer.
pub data PeerCommand : Type 0 where
  connect remove exit refresh : PeerCommand
  distribute : MessageTool → PeerCommand
  sendme : Bytes → Bytes → PeerCommand

-- `Conns`, what was put into the channels of the peers, and the peers whose worker runs, both the latest
-- first. The peers in the map are as they were put there; the worker's is the one that connects.
pub record Node : Type 0 where
  pub store : Store
  pub conns : Dict Peer
  pub queued : List (Bytes × PeerCommand)
  pub workers : List Peer

abbrev pub site : ℕ → Caller
site line = record { runtime_name = "Worker"; function = "peering.go"; line = line }

-- `delete(p.Conns, torid)`
unfoldable pub forget : Bytes → Dict Peer → Dict Peer
forget k [] = []
forget k ((j, p) ∷ d) = let rest = forget k d in if beq j k then rest else (j, p) ∷ rest

-- The values of ControlMessages and of Feed in the options; `none` is the panic of an option without a
-- value.
unfoldable pub read_options : List Bytes → Bytes → Bytes → Option (Bytes × Bytes)
unfolding split_on
read_options [] cm feed = some (cm, feed)
read_options (i ∷ opts) cm feed =
    let words = split_on (codes ": ") i in
    let name : Bytes = elim (get_elem? words 0) [ none ↦ [] | some w ↦ w ] in
    let value : Option Bytes = get_elem? words 1 in
    if beq name (codes "ControlMessages")
    then elim value [ none ↦ none | some v ↦ read_options opts v feed ]
    else if beq name (codes "Feed")
    then elim value [ none ↦ none | some v ↦ read_options opts cm v ]
    else read_options opts cm feed

-- A step of a peer's own worker: the peer afterwards, or a panic.
pub data Linked : Type 0 where
  linked : Peer → Linked
  panic : Linked

-- `Peer.Connect`: `dialled` is what the other side sends, `none` where the dial fails, and whether `NewConn` of
-- go-nntp gives a client; its error is dropped, and `Authenticate` of a nil client panics.
unfoldable pub connect_peer : Crypto → EasyEdKey → Bytes → Option (Bytes × Bool) → Peer → Linked
connect_peer c my_key random dialled p = if p.connected then linked p else elim dialled [
  | none ↦ linked p
  | some (conn, greeted) ↦ elim (client_handshake c my_key random p.peer_tor_id conn).1 [
    | Torutils.ok _ ↦ if greeted then linked (record p { connected = true }) else panic
    | Torutils.err _ ↦ linked p
    | Torutils.panic ↦ panic
  ]
]

-- The state of the databases in a node.
abbrev pub with_store : Store → Node → Node
with_store s node = record node { store = s }

-- A command put into the channel of a peer.
abbrev pub queue : Bytes → PeerCommand → Node → Node
queue torid cmd node = record node { queued = (torid, cmd) ∷ node.queued }

module _ (c : Crypto) (read_message : Bytes → Option (Header × Bytes))
    (remove_peer : Bytes → Db (Unit {0})) (my_key : EasyEdKey) where
  -- The peer of an identifier, in the map under it.
  unfoldable pub join_peer : Bytes → Node → Node
  unfolding new_peer
  join_peer torid node =
      let peer = new_peer c my_key (set_tor_id c torid empty_key).1 in
      queue torid connect
        (record node { conns = insert torid peer node.conns; workers = peer ∷ node.workers })

  -- `AddPeer`
  unfoldable pub add_peer : Bytes → Node → Reply × Node
  unfolding join_peer
  add_peer torid node =
      if beq torid (or_empty (tor_id c my_key))
      then (Messages.returned (errorf (site 390) (format "Peer is me myid=%s thier id=%s,")), node)
      else let (r, s) = Client.add_peer c read_message remove_peer torid node.store in
        elim r [
          | crashed ↦ (Messages.panic, with_store s node)
          | returned _ e ↦ elim e [
            | some x ↦ (
              Messages.returned (
                  some
                    (wrap (site 397) (some (message "Peer already exists %s=%s") ∷ (some x ∷ [])))),
              with_store s node,
            )
            | none ↦ (Messages.returned none, join_peer torid (with_store s node))
          ]
        ]

  -- `RemovePeer`: the peer's channel is that of a nil peer where it is not in the map. The method does
  -- not wait for an answer.
  unfoldable pub drop_peer : Bytes → Node → Reply × Node
  unfolding forget
  drop_peer torid node = elim (lookup torid node.conns) [
    | none ↦ (Messages.panic, node)
    | some _ ↦ (
      Messages.returned none,
      queue torid remove (record node { conns = forget torid node.conns }),
    )
  ]

  unfoldable pub join_all : List Bytes → Node → Node
  unfolding join_peer
  join_all [] node = node
  join_all (torid ∷ torids) node = join_all torids (join_peer torid node)

  -- `Connect`
  unfoldable pub connect_all : Node → Reply × Node
  unfolding join_all
  connect_all node =
      let (r, s) = Client.get_peer_list c read_message remove_peer node.store in
      elim r [
        | crashed ↦ (Messages.panic, with_store s node)
        | returned torids e ↦ elim e [
          | some x ↦ (Messages.returned (new (site 351) (some x)), with_store s node)
          | none ↦ (Messages.returned none, join_all torids (with_store s node))
        ]
      ]

  unfoldable pub queue_all : PeerCommand → Dict Peer → Node → Node
  queue_all cmd [] node = node
  queue_all cmd ((torid, _) ∷ peers) node = queue_all cmd peers (queue torid cmd node)

  -- `DistributeArticle`; `visit` is the order in which the map is visited.
  unfoldable pub distribute_article : (Dict Peer → Dict Peer) → MessageTool → Node → Node
  unfolding queue_all
  distribute_article visit m node = queue_all (distribute m) (visit node.conns) node

  -- The case of Sendme in the worker of a peer, up to where it closes the channel of the error. The
  -- errors of the three calls are dropped.
  unfoldable pub take_sendme : Peer → Bytes → Bytes → Store → Reply × Store
  unfolding read_options split_on
  take_sendme p list options s = elim (read_options (split_on line_end options) [] []) [
    | none ↦ (Messages.panic, s)
    | some (cm, feed) ↦
        let (r1, s1) =
          Client.group_config_set c read_message remove_peer p.group_name (codes "ControlMessages")
            (Value.text cm) s in
        elim r1 [
          | crashed ↦ (Messages.panic, s1)
          | returned _ _ ↦
              let (r2, s2) =
                Client.group_config_set c read_message remove_peer p.group_name (codes "Feed")
                  (Value.text feed) s1 in
              elim r2 [
                | crashed ↦ (Messages.panic, s2)
                | returned _ _ ↦
                    let (r3, s3) =
                      Client.group_update_subscriptions c read_message remove_peer p.group_name
                        (split_on line_end list) s2 in
                    elim r3 [
                      | crashed ↦ (Messages.panic, s3)
                      | returned _ _ ↦ (Messages.returned none, s3)
                    ]
              ]
        ]
  ]

  -- `Sendme`: it waits for the worker of the peer.
  unfoldable pub send_me : Bytes → Bytes → Bytes → Node → Reply × Node
  unfolding take_sendme
  send_me torid list options node = elim (lookup torid node.conns) [
    | none ↦ (Messages.panic, node)
    | some p ↦
        let (r, s) = take_sendme p list options node.store in
        (r, with_store s (queue torid (sendme list options) node))
  ]
