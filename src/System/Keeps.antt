-- ===== src/System/Keeps.antt =====
-- What every step of a node keeps.
use kothawoc.Prelude.{none, some, ℕ, Bytes, codes, Bool, false, Option, List, [], ◌∷◌, ◌||◌}
use kothawoc.Prelude.Int.{ℤ, pos}
use kothawoc.Serror.{Error}
use kothawoc.Text.{split}
use kothawoc.Header.{Header, get}
use kothawoc.Dict.{lookup}
use kothawoc.Keytool.{Crypto, EasyEdKey}
use kothawoc.Databases.State.{Store, Permissions, int}
use kothawoc.Databases.Monad.{Db}
use kothawoc.Databases.Groups.{CardField}
use kothawoc.Databases.Articles.{NumberedArticle}
use kothawoc.Databases.Cancel.{contains_str}
use kothawoc.Databases.Server.{Command, serve}
use kothawoc.Databases.Stable.{Granted}
use kothawoc.Databases.Client
use kothawoc.Messages.Mime.{Library}
use kothawoc.Messages.Tool.{MessageTool, raw_mail}
use kothawoc.Messages.Body.{from_article}
use kothawoc.Peering.{
  Peer, Sent, silent, posted, last_message, advance, may_read, send, offer, send_next,
  send_messages,
}
use kothawoc.Peering.Manager
use kothawoc.Peering.Manager.{Node, with_store, queue, connect_all, drop_peer, join_all}
use kothawoc.Messages.{Reply}
use kothawoc.Databases.Open.{new_backend_dbs}
use kothawoc.Databases.Invariant.Reachable.{blank, ended}
use kothawoc.Backend.{World}
use kothawoc.Backend.Keeps.Posting.{Grants, post-Keeps}
use kothawoc.System.{
  Nothing, Step, posts, asks, adds, removes, connects, dials, feeds, starts, Reached, begin, later,
}
use kothawoc.Backend.Keeps.{store-IsKept, returned-case, Option-case, nil-case, if-case}

module _ {P : Store → Type 0} {May : Header → Bytes → Type 0} (l : Library) (c : Crypto)
    (read_message : Bytes → Option (Header × Bytes)) (remove_peer : Bytes → Db (Unit {0}))
    (served : (cmd : Command)
      → Granted May cmd
      → (s : Store) → P s
      → P (serve c read_message remove_peer cmd s).1)
    (random : Bytes) (post : Bytes → Option Error) (p : Peer) where
  abbrev After : {A : Type 0} → A × Store → Type 0
  After x = P x.1

  advance-Keeps :
      (num : ℕ) (sent : Sent) (s : Store)
      → P s
      → P (advance l c read_message remove_peer random post p num sent s).1
  unfolding advance Client.group_config_set
  advance-Keeps num sent s h =
      let h' = served (Command.group_config_set p.group_name last_message (int (pos num))) tt s h in
      returned-case (After {A = Sent}) _ _ _ h' (λ _ _. h')

  may_read-Keeps :
      (groups : List Bytes) (found : Bool) (s : Store)
      → P s
      → P (may_read l c read_message remove_peer random post p groups found s).1
  unfolding may_read Client.get_perms
  may_read-Keeps [] found s h = h
  may_read-Keeps (group ∷ groups) found s h =
      let V = After {A = Option Bool} in
      let h' = served (Command.get_perms p.peer_tor_id group) tt s h in
      returned-case V _ _ _ h' (λ perms _.
        Option-case V perms _ _ h'
          (λ (given : Permissions). may_read-Keeps groups (given.read || found) _ h'))

  send-Keeps :
      (num : ℕ) (m : MessageTool) (s : Store)
      → P s
      → P (send l c read_message remove_peer random post p num m s).1
  unfolding send
  send-Keeps num m s h =
      let V = After {A = Sent} in
      Option-case V (raw_mail l random m).0 _ _ h (λ text.
        nil-case V (post text) _ _ (advance-Keeps num (posted text) s h)
          (λ _. advance-Keeps num (posted text) s h))

  offer-Keeps :
      (num : ℕ) (m : MessageTool) (s : Store)
      → P s
      → P (offer l c read_message remove_peer random post p num m s).1
  unfolding offer
  offer-Keeps num m s h =
      let V = After {A = Sent} in
      let groups = split b',' (get m.article.header (codes "Newsgroups")) in
      let r = may_read l c read_message remove_peer random post p groups false s in
      let h' = may_read-Keeps groups false s h in
      if-case V (contains_str (split b'!' (get m.article.header (codes "Path"))) p.peer_tor_id) _ _
        (advance-Keeps num silent s h)
        (Option-case V r.0 _ _ h' (λ granted.
          if-case V granted _ _ (send-Keeps num m r.1 h') (advance-Keeps num silent r.1 h')))

  send_next-Keeps :
      (last : ℤ) (s : Store)
      → P s
      → P (send_next l c read_message remove_peer random post p last s).1
  unfolding send_next Client.get_next_article
  send_next-Keeps last s h =
      let V = After {A = Sent} in
      let h' = served (Command.get_next_article last) tt s h in
      returned-case V _ _ _ h' (λ art e.
        nil-case V e _ _
          (Option-case V art _ _ h' (λ (a : NumberedArticle).
            Option-case V (from_article l a.article) _ _ h' (λ m. offer-Keeps a.num m _ h')))
          (λ _. h'))

  -- A round of the feed.
  pub send_messages-Keeps :
      (s : Store) → P s → P (send_messages l c read_message remove_peer random post p s).1
  unfolding send_messages Client.group_config_get_int64
  send_messages-Keeps s h =
      let V = After {A = Sent} in
      let h' = served (Command.group_config_get_int64 p.group_name last_message) tt s h in
      if-case V p.connected _ _
        (returned-case V _ _ _ h'
          (λ last e. nil-case V e _ _ (send_next-Keeps last _ h') (λ _. h')))
        h

module _ {P : Store → Type 0} {May : Header → Bytes → Type 0} (l : Library) (c : Crypto)
    (read_message : Bytes → Option (Header × Bytes)) (remove_peer : Bytes → Db (Unit {0}))
    (decode_card : Bytes → List CardField) (my_key : EasyEdKey)
    (served : (cmd : Command)
      → Granted May cmd
      → (s : Store) → P s
      → P (serve c read_message remove_peer cmd s).1)
    (grants : (world : World) → Grants May l c world)
    (restarted : (t : ℕ) (s : Store) → P s → P (new_backend_dbs t (ended s)).1) where
  join_all-store :
      (torids : List Bytes) (node : Node)
      → P node.store
      → P (join_all c read_message remove_peer my_key torids node).store
  unfolding join_all Manager.join_peer
  join_all-store [] node h = h
  join_all-store (torid ∷ torids) node h = join_all-store torids _ h

  connect_all-store :
      (node : Node) → P node.store → P (connect_all c read_message remove_peer my_key node).1.store
  unfolding connect_all Client.get_peer_list
  connect_all-store node h =
      let V : Reply × Node → Type 0 = λ (x : Reply × Node). P x.1.store in
      let r = Client.get_peer_list c read_message remove_peer node.store in
      let h' = served Command.get_peer_list tt node.store h in
      returned-case V r.0 _ _ h'
        (λ torids e. nil-case V e _ _ (join_all-store torids (with_store r.1 node) h') (λ _. h'))

  drop_peer-store :
      (torid : Bytes) (node : Node)
      → P node.store
      → P (drop_peer c read_message remove_peer my_key torid node).1.store
  unfolding drop_peer
  drop_peer-store torid node h =
      Option-case (λ (x : Reply × Node). P x.1.store) (lookup torid node.conns) _ _ h (λ _. h)

  asked : (cmd : Command) → Granted Nothing cmd → Granted May cmd
  asked (Command.store_article h none) g = tt
  asked (Command.store_article h (some raw)) g = absurd g
  asked _ g = tt

  -- A property of the databases that the commands and a start keep is kept by every step.
  Step-store :
      {node node' : Node}
      → Step l c read_message remove_peer decode_card my_key node node'
      → P node.store
      → P node'.store
  Step-store {node} (posts world session article) h =
      post-Keeps l c read_message remove_peer decode_card my_key
        (store-IsKept c read_message remove_peer served my_key) world (grants world) session article
        node h
  Step-store {node} (asks cmd g) h = served cmd (asked cmd g) node.store h
  Step-store {node} (adds torid) h =
      (store-IsKept c read_message remove_peer served my_key).added torid node h
  Step-store {node} (removes torid) h = drop_peer-store torid node h
  Step-store {node} connects h = connect_all-store node h
  Step-store (dials before p after random dialled p' e q) h = h
  Step-store {node} (feeds before p after random post e) h =
      send_messages-Keeps l c read_message remove_peer served random post p node.store h
  Step-store {node} (starts t) h = restarted t node.store h

  pub Reached-store :
      ((faults : List Bool) (torn : List (Option ℕ)) → P (blank faults torn))
      → (node : Node) → Reached l c read_message remove_peer decode_card my_key node
      → P node.store
  Reached-store first _ (begin faults torn) = first faults torn
  Reached-store first _ (later r step) = Step-store step (Reached-store first _ r)
