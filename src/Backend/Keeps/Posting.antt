-- ===== src/Backend/Keeps/Posting.antt =====
-- What `Post` keeps.
use kothawoc.Prelude.{
  refl, Bytes, codes, beq, Option, none, some, List, [], ◌∷◌, true, ◌≡◌, ◌∙◌, ap,
}
use kothawoc.Databases.Stable.{Granted, Sent}
use kothawoc.Prelude.Int.{ℤ}
use kothawoc.Header.{Header, get}
use kothawoc.Text.{split}
use kothawoc.Dict.{Dict}
use kothawoc.Keytool.{Crypto, EasyEdKey, tor_id, set_tor_private_key}
use kothawoc.Databases.State.{Store}
use kothawoc.Databases.Monad.{Db}
use kothawoc.Databases.Config.{device_key}
use kothawoc.Databases.Groups.{CardField}
use kothawoc.Databases.Articles.{Article, signature_header, message_id}
use kothawoc.Databases.Server.{Command}
use kothawoc.Databases.Client
use kothawoc.Databases.Client.{Returned, returned, crashed}
use kothawoc.Messages
use kothawoc.Messages.{Reply, check_control}
use kothawoc.Messages.Mime.{Library}
use kothawoc.Messages.Keeps.{check_control-keeps}
use kothawoc.Messages.Tool
use kothawoc.Messages.Tool.{MessageTool, Written, raw_mail, sign, verify, with_field}
use kothawoc.Messages.Body.{from_article}
use kothawoc.Peering.Manager.{Node, with_store, distribute_article}
use kothawoc.Backend.{Session, World}
use kothawoc.Backend.Posting.{
  post, sign_local, check, route, accept, store, postable_groups, functions, is_local, new_path,
  failed, row_number,
}
use kothawoc.Databases.Server.{serve}
use kothawoc.Backend.Keeps.{
  returned-case, Option-case, nil-case, if-case, found-case, then-case, IsKept, served-In,
  add_to_groups-Keeps, queue_all-Keeps, functions-AllKeep, postable_groups-Keeps,
}

-- May the text of a message that `Verify` accepted, with a path of its own, be stored?
abbrev pub Grants : (Header → Bytes → Type 0) → Library → Crypto → World → Type 0
Grants May l c world =
    (m : MessageTool) (path raw : Bytes)
    → (verify l c (world.boundary 2) m).0 ≡ some true
    → let sent =
        raw_mail l (world.boundary 3)
          (with_field l (codes "Path") path (verify l c (world.boundary 2) m).1) in
      sent.0 ≡ some raw → May sent.1.article.header raw

all-Sent :
    (May : Header → Bytes → Type 0) (h : Header) (text : Option Bytes)
    → ((raw : Bytes) → text ≡ some raw → May h raw)
    → Sent May h text
all-Sent May h none may = tt
all-Sent May h (some raw) may = may raw refl

module _ {P : Node → Type 0} {May : Header → Bytes → Type 0} (l : Library) (c : Crypto)
    (read_message : Bytes → Option (Header × Bytes)) (remove_peer : Bytes → Db (Unit {0}))
    (decode_card : Bytes → List CardField) (my_key : EasyEdKey)
    (k : IsKept c read_message remove_peer my_key May P) (world : World)
    (grants : Grants May l c world) (session : Session) where
  abbrev Valid : Reply × Node → Type 0
  Valid x = P x.1

  -- A message whose text may be stored.
  abbrev Sendable : MessageTool → Type 0
  Sendable m =
      let sent = raw_mail l (world.boundary 3) m in
      (raw : Bytes) → sent.0 ≡ some raw → May sent.1.article.header raw

  served' :
      (node : Node) (cmd : Command)
      → Granted May cmd
      → (s : Store) → P (with_store s node)
      → P (with_store (serve c read_message remove_peer cmd s).1 node)
  served' node = served-In c read_message remove_peer my_key k node

  distribute-Keeps :
      (m : MessageTool) (node : Node)
      → P node
      → P (distribute_article c read_message remove_peer my_key world.visit_peers m node)
  unfolding distribute_article
  distribute-Keeps m node h =
      queue_all-Keeps c read_message remove_peer my_key k _ (world.visit_peers node.conns) node h

  store-Valid :
      (m : MessageTool) (groups : Dict ℤ) (node : Node)
      → Sendable m
      → P node
      → Valid (store l c read_message remove_peer decode_card my_key world m groups node)
  unfolding store Client.store_article
  store-Valid m [] node sendable h = h
  store-Valid m (group ∷ groups) node sendable h =
      let (text, m') = raw_mail l (world.boundary 3) m in
      let a = Client.store_article c read_message remove_peer m'.article.header text node.store in
      let ha =
        k.served (Command.store_article m'.article.header text)
          (all-Sent May m'.article.header text sendable) node h in
      returned-case Valid a.0 _ _ ha (λ id e.
        nil-case Valid e _ _
          (let node' =
              distribute_article c read_message remove_peer my_key world.visit_peers m'
                (with_store a.1 node) in
            add_to_groups-Keeps {P = λ s. P (with_store s node')} c read_message remove_peer
              (served' node') l decode_card my_key (world.visit_groups (group ∷ groups))
              (get m'.article.header message_id) (row_number id) node'.store
              (distribute-Keeps m' (with_store a.1 node) ha))
          (λ _. ha))

  accept-Valid :
      (m : MessageTool) (node : Node)
      → Sendable m
      → P node
      → Valid (accept l c read_message remove_peer decode_card my_key world session m node)
  unfolding accept
  accept-Valid m node sendable h =
      let a =
        check_control decode_card (functions l c read_message remove_peer decode_card my_key)
          session.id m.article.header m.parts node in
      let ha =
        check_control-keeps P (functions l c read_message remove_peer decode_card my_key)
          (functions-AllKeep c read_message remove_peer my_key k l decode_card) decode_card
          session.id m.article.header m.parts node h in
      go a.0 a.1 ha
    where
      go :
          (r : Reply) (node' : Node)
          → P node'
          → Valid (elim r as (λ _. Reply × Node) [
            | Messages.panic ↦ (Messages.panic, node')
            | Messages.returned e ↦ elim e [
              | some _ ↦ failed node'
              | none ↦
                  let (groups, s) =
                    postable_groups l c read_message remove_peer decode_card my_key session
                      (split b',' (get m.article.header (codes "Newsgroups")))
                      []
                      node'.store in
                  elim groups [
                    | none ↦ (Messages.panic, with_store s node')
                    | some found ↦
                        store l c read_message remove_peer decode_card my_key world m found
                          (with_store s node')
                  ]
            ]
          ])
      go Messages.panic node' v = v
      go (Messages.returned (some _)) node' v = v
      go (Messages.returned none) node' v =
          let names = split b',' (get m.article.header (codes "Newsgroups")) in
          let b =
            postable_groups l c read_message remove_peer decode_card my_key session names []
              node'.store in
          let hb =
            postable_groups-Keeps {P = λ s. P (with_store s node')} c read_message remove_peer
              (served' node') l decode_card my_key session names [] node'.store v in
          Option-case Valid b.0 _ _ hb
            (λ found. store-Valid m found (with_store b.1 node') sendable hb)

  route-Valid :
      (m : MessageTool) (node : Node)
      → ((path : Bytes) → Sendable (with_field l (codes "Path") path m))
      → P node
      → Valid (route l c read_message remove_peer decode_card my_key world session m node)
  unfolding route Client.config_get_bytes tor_id set_tor_private_key
  route-Valid m node sendable h =
      let a = Client.config_get_bytes c read_message remove_peer device_key node.store in
      let ha = k.served (Command.config_get_bytes device_key) tt node h in
      returned-case Valid a.0 _ _ ha (λ key _.
        Option-case Valid
          (new_path l c read_message remove_peer decode_card my_key session
            (c.onion_id_of_private key) (get m.article.header (codes "Path")))
          _ _ ha
          (λ path.
            accept-Valid (with_field l (codes "Path") path m) (with_store a.1 node) (sendable path)
              ha))

  abbrev ValidStore : Node → Option MessageTool × Store → Type 0
  ValidStore node x = P (with_store x.1 node)

  written-Valid :
      (w : Written) (m : MessageTool) (s : Store) (node : Node)
      → P (with_store s node)
      → ValidStore node
          (elim w [ Tool.ok _ ↦ (some m, s) | Tool.err _ ↦ (some m, s) | Tool.panic ↦ (none, s) ])
  written-Valid (Tool.ok _) m s node h = h
  written-Valid (Tool.err _) m s node h = h
  written-Valid Tool.panic m s node h = h

  sign_local-Valid :
      (m : MessageTool) (node : Node)
      → P node
      → ValidStore node
          (sign_local l c read_message remove_peer decode_card my_key world session m node.store)
  unfolding sign_local Client.config_get_device_key
  sign_local-Valid m node h =
      let V = ValidStore node in
      let a = Client.config_get_device_key c read_message remove_peer node.store in
      let ha = k.served Command.config_get_device_key tt node h in
      if-case V (is_local l c read_message remove_peer decode_card my_key session) _ _
        (if-case V (beq (get m.article.header signature_header) []) _ _
          (returned-case V a.0 _ _ ha (λ key _. written-Valid _ _ a.1 node ha)) h)
        h

  check-Valid :
      (m : MessageTool) (node : Node)
      → P node
      → Valid (check l c read_message remove_peer decode_card my_key world session m node)
  unfolding check
  check-Valid m node h =
      let (verdict, m') = verify l c (world.boundary 2) m in
      found-case Valid verdict _ _ h (λ good found.
        then-case Valid good _ _
          (λ true'. route-Valid m' node (λ path raw. grants m path raw (found ∙ ap some true')) h)
          h)

  -- Whatever is posted, by whichever session, with whatever control message in it.
  pub post-Keeps :
      (article : Article) (node : Node)
      → P node
      → P (post l c read_message remove_peer decode_card my_key world session article node).1
  unfolding post
  post-Keeps article node h = Option-case Valid (from_article l article) _ _ h (λ m.
      let a =
        sign_local l c read_message remove_peer decode_card my_key world session m node.store in
      let ha = sign_local-Valid m node h in
      Option-case Valid a.0 _ _ ha (λ m'. check-Valid m' (with_store a.1 node) ha))
