-- ===== src/Backend/Keeps.antt =====
-- The steps of `Post` keep what the commands of the databases and the functions of the peers keep.
pub mod Posting
use kothawoc.Prelude.{
  ℕ, zero, ◌≡◌, refl, sym, Bytes, codes, beq, Bool, true, false, Option, none, some, List, [], ◌∷◌,
  if◌then◌else◌,
}
use kothawoc.Prelude.Int.{ℤ}
use kothawoc.Serror.{Error}
use kothawoc.Header.{Header, get}
use kothawoc.Text.{split, split_on, trim_space}
use kothawoc.Dict.{Dict, lookup, insert}
use kothawoc.Keytool
use kothawoc.Keytool.{Crypto, EasyEdKey, tor_id, set_tor_private_key, empty_key}
use kothawoc.Databases.State.{Store, Permissions, text}
use kothawoc.Databases.Monad.{Db}
use kothawoc.Databases.Config.{device_key}
use kothawoc.Databases.Groups.{CardField}
use kothawoc.Databases.Articles.{Article, signature_header, message_id}
use kothawoc.Databases.Server.{Command, serve}
use kothawoc.Databases.Client
use kothawoc.Databases.Client.{Returned, returned, crashed}
use kothawoc.Databases.Stable.{Granted}
use kothawoc.Messages
use kothawoc.Messages.{Reply}
use kothawoc.Messages.Mime.{Library, line_end}
use kothawoc.Messages.Keeps.{AllKeep, check_control-keeps}
use kothawoc.Messages.Tool
use kothawoc.Messages.Tool.{MessageTool}
use kothawoc.Peering.{Peer, or_empty}
use kothawoc.Peering.Manager
use kothawoc.Peering.Manager.{Node, PeerCommand, sendme, with_store, queue}
use kothawoc.Backend.{Session, World}
use kothawoc.Backend.Posting.{
  post, sign_local, check, route, accept, store, add_to_groups, postable_groups, functions, reply,
  closed_to,
}

module _ {B : Type 0} (P : B → Type 0) where
  -- The ways on from a call.
  pub returned-case :
      {A : Type 0} (r : Returned A) (z : B) (f : A → Option Error → B)
      → P z
      → ((a : A) (e : Option Error) → P (f a e))
      → P (elim r [ crashed ↦ z | returned a e ↦ f a e ])
  returned-case crashed z f pz pf = pz
  returned-case (returned a e) z f pz pf = pf a e

  pub Option-case :
      {A : Type 0} (o : Option A) (z : B) (f : A → B)
      → P z
      → ((a : A) → P (f a))
      → P (elim o [ none ↦ z | some a ↦ f a ])
  Option-case none z f pz pf = pz
  Option-case (some a) z f pz pf = pf a

  pub nil-case :
      (o : Option Error) (f : Error → B) (z : B)
      → P z
      → ((a : Error) → P (f a))
      → P (elim o [ some a ↦ f a | none ↦ z ])
  nil-case none f z pz pf = pz
  nil-case (some a) f z pz pf = pf a

  pub if-case : (b : Bool) (x y : B) → P x → P y → P (if b then x else y)
  if-case true x y px py = px
  if-case false x y px py = py

  -- The same, where what was found is of use.
  pub found-case :
      {A : Type 0} (o : Option A) (z : B) (f : A → B)
      → P z
      → ((a : A) → o ≡ some a → P (f a))
      → P (elim o [ none ↦ z | some a ↦ f a ])
  found-case none z f pz pf = pz
  found-case (some a) z f pz pf = pf a refl

  pub then-case : (b : Bool) (x y : B) → (b ≡ true → P x) → P y → P (if b then x else y)
  then-case true x y px py = px refl
  then-case false x y px py = py

module _ {P : Store → Type 0} {May : Header → Bytes → Type 0} (c : Crypto)
    (read_message : Bytes → Option (Header × Bytes)) (remove_peer : Bytes → Db (Unit {0}))
    (served : (cmd : Command)
      → Granted May cmd
      → (s : Store) → P s
      → P (serve c read_message remove_peer cmd s).1) where
  pub add_to_groups-Keeps :
      (l : Library) (decode_card : Bytes → List CardField) (my_key : EasyEdKey) (groups : Dict ℤ)
      (mid : Bytes) (id : ℕ) (s : Store)
      → P s
      → P (add_to_groups l c read_message remove_peer decode_card my_key groups mid id s).1
  unfolding add_to_groups Client.add_article_to_group
  add_to_groups-Keeps l decode_card my_key [] mid id s h = h
  add_to_groups-Keeps l decode_card my_key ((group, n) ∷ groups) mid id s h =
      let (r, s') = Client.add_article_to_group c read_message remove_peer group mid id s in
      let h' : P s' = served (Command.add_article_to_group group mid id) tt s h in
      returned-case (λ (x : Reply × Store). P x.1) r _ _ h'
        (λ _ e.
          Option-case (λ (x : Reply × Store). P x.1) e _ _
            (add_to_groups-Keeps l decode_card my_key groups mid id s' h') (λ _. h'))

  pub take_sendme-Keeps :
      (my_key : EasyEdKey) (p : Peer) (list options : Bytes) (s : Store)
      → P s
      → P (Manager.take_sendme c read_message remove_peer my_key p list options s).1
  unfolding Manager.take_sendme Client.group_config_set Client.group_update_subscriptions
  take_sendme-Keeps my_key p list options s h =
      let V : Reply × Store → Type 0 = λ (x : Reply × Store). P x.1 in
      Option-case V (Manager.read_options (split_on line_end options) [] []) _ _ h (λ (cm, feed).
        let a =
          Client.group_config_set c read_message remove_peer p.group_name (codes "ControlMessages")
            (text cm) s in
        let ha =
          served (Command.group_config_set p.group_name (codes "ControlMessages") (text cm)) tt s
            h in
        returned-case V a.0 _ _ ha (λ _ _.
          let b =
            Client.group_config_set c read_message remove_peer p.group_name (codes "Feed")
              (text feed) a.1 in
          let hb =
            served (Command.group_config_set p.group_name (codes "Feed") (text feed)) tt a.1 ha in
          returned-case V b.0 _ _ hb (λ _ _.
            let d =
              Client.group_update_subscriptions c read_message remove_peer p.group_name
                (split_on line_end list) b.1 in
            let hd =
              served (Command.group_update_subscriptions p.group_name (split_on line_end list)) tt
                b.1 hb in
            returned-case V d.0 _ _ hd (λ _ _. hd))))

  pub postable_groups-Keeps :
      (l : Library) (decode_card : Bytes → List CardField) (my_key : EasyEdKey) (session : Session)
      (names : List Bytes) (found : Dict ℤ) (s : Store)
      → P s
      → P (postable_groups l c read_message remove_peer decode_card my_key session names found s).1
  unfolding postable_groups Client.get_perms Client.get_group_number
  postable_groups-Keeps l decode_card my_key session [] found s h = h
  postable_groups-Keeps l decode_card my_key session (name ∷ names) found s h =
      let V : Option (Dict ℤ) × Store → Type 0 = λ (x : Option (Dict ℤ) × Store). P x.1 in
      let a = Client.get_perms c read_message remove_peer session.id (trim_space name) s in
      let ha = served (Command.get_perms session.id (trim_space name)) tt s h in
      returned-case V a.0 _ _ ha (λ perms _.
        if-case V (closed_to perms) _ _
          (postable_groups-Keeps l decode_card my_key session names found a.1 ha)
          (let b = Client.get_group_number c read_message remove_peer (trim_space name) a.1 in
            let hb = served (Command.get_group_number (trim_space name)) tt a.1 ha in
            returned-case V b.0 _ _ hb
              (λ id _. postable_groups-Keeps l decode_card my_key session names _ b.1 hb)))

-- What the functions of a node keep: the commands of its databases, what is put into the channels of its
-- peers, and the peers that are added.
pub record IsKept (c : Crypto) (read_message : Bytes → Option (Header × Bytes))
    (remove_peer : Bytes → Db (Unit {0})) (my_key : EasyEdKey) (May : Header → Bytes → Type 0)
    (P : Node → Type 0) : Type 0 where
  pub served :
      (cmd : Command)
      → Granted May cmd
      → (node : Node) → P node
      → P (with_store (serve c read_message remove_peer cmd node.store).1 node)
  pub queued : (torid : Bytes) (cmd : PeerCommand) (node : Node) → P node → P (queue torid cmd node)
  pub added :
      (torid : Bytes) (node : Node)
      → P node
      → P (Manager.add_peer c read_message remove_peer my_key torid node).1

module _ {P : Store → Type 0} {May : Header → Bytes → Type 0} (c : Crypto)
    (read_message : Bytes → Option (Header × Bytes)) (remove_peer : Bytes → Db (Unit {0}))
    (served : (cmd : Command)
      → Granted May cmd
      → (s : Store) → P s
      → P (serve c read_message remove_peer cmd s).1)
    (my_key : EasyEdKey) where
  -- A property of the databases alone.
  pub store-IsKept : IsKept c read_message remove_peer my_key May (λ node. P node.store)
  unfolding Manager.add_peer Client.add_peer Manager.join_peer
  store-IsKept = record {
    served = λ cmd g node h. served cmd g node.store h;
    queued = λ torid cmd node h. h;
    added = λ torid node h.
        let V : Reply × Node → Type 0 = λ (x : Reply × Node). P x.1.store in
        let (r, s') = Client.add_peer c read_message remove_peer torid node.store in
        let h' : P s' = served (Command.add_peer torid) tt node.store h in
        if-case V (beq torid (or_empty (tor_id c my_key))) _ _ h
          (returned-case V r _ _ h' (λ _ e. nil-case V e _ _ h' (λ _. h')));
  }

module _ {P : Node → Type 0} {May : Header → Bytes → Type 0} (c : Crypto)
    (read_message : Bytes → Option (Header × Bytes)) (remove_peer : Bytes → Db (Unit {0}))
    (my_key : EasyEdKey) (k : IsKept c read_message remove_peer my_key May P) where
  -- A node whose databases are in a state.
  abbrev pub In : Node → Store → Type 0
  In node s = P (with_store s node)

  pub served-In :
      (node : Node) (cmd : Command)
      → Granted May cmd
      → (s : Store) → In node s
      → In node (serve c read_message remove_peer cmd s).1
  served-In node cmd g s h = k.served cmd g (with_store s node) h

  send_me-Keeps :
      (torid list options : Bytes) (node : Node)
      → P node
      → P (Manager.send_me c read_message remove_peer my_key torid list options node).1
  unfolding Manager.send_me
  send_me-Keeps torid list options node h =
      Option-case (λ (x : Reply × Node). P x.1) (lookup torid node.conns) _ _ h
        (λ p. k.queued torid (sendme list options) _ (
          take_sendme-Keeps {P = In node} c read_message remove_peer (served-In node) my_key p list
            options node.store h))

  reply-Keeps : (r : Returned (Unit {0}) × Store) (node : Node) → In node r.1 → P (reply r node).1
  reply-Keeps (returned _ _, s) node h = h
  reply-Keeps (crashed, s) node h = h

  pub queue_all-Keeps :
      (cmd : PeerCommand) (peers : Dict Peer) (node : Node)
      → P node
      → P (Manager.queue_all c read_message remove_peer my_key cmd peers node)
  unfolding Manager.queue_all
  queue_all-Keeps cmd [] node h = h
  queue_all-Keeps cmd ((torid, _) ∷ peers) node h =
      queue_all-Keeps cmd peers (queue torid cmd node) (k.queued torid cmd node h)

  pub functions-AllKeep :
      (l : Library) (decode_card : Bytes → List CardField)
      → AllKeep P (functions l c read_message remove_peer decode_card my_key)
  unfolding Client.new_group Client.cancel_message
  functions-AllKeep l decode_card = record {
    new_group = λ name desc card node h.
        reply-Keeps _ node (k.served (Command.new_group name desc _) tt node h);
    add_peer = λ name node h. k.added name node h;
    cancel = λ from id newsgroups node h.
        reply-Keeps _ node (k.served (Command.cancel_message from id newsgroups) tt node h);
    sendme = λ name list options node h. send_me-Keeps name list options node h;
  }
