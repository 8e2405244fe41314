-- ===== src/Backend/Posting.antt =====
-- `Post` of internal/nntpbackend/nntpbackend.go.
use kothawoc.Prelude.{
  ℕ, zero, suc, Bytes, codes, beq, Bool, true, false, not, ◌||◌, Option, none, some, List, [], ◌∷◌,
  ◌++◌, if◌then◌else◌,
}
use kothawoc.Prelude.Int.{ℤ, pos, negsuc}
use kothawoc.Serror.{sentinel, posting_failed, posting_not_permitted}
use kothawoc.Dict.{Dict, insert}
use kothawoc.Text.{split, trim_space}
use kothawoc.Header.{Header, get}
use kothawoc.Keytool
use kothawoc.Keytool.{Crypto, EasyEdKey, empty_key, tor_id, set_tor_private_key}
use kothawoc.Databases.State.{Store, Permissions}
use kothawoc.Databases.Monad.{Db}
use kothawoc.Databases.Config.{device_key}
use kothawoc.Databases.Articles.{Article, message_id, signature_header}
use kothawoc.Databases.Groups.{CardField}
use kothawoc.Databases.Client
use kothawoc.Databases.Client.{Returned, returned, crashed}
use kothawoc.Messages
use kothawoc.Messages.{Reply, Callbacks, check_control}
use kothawoc.Messages.Mime.{Library}
use kothawoc.Messages.Tool
use kothawoc.Messages.Tool.{MessageTool, sign, verify, raw_mail, with_field}
use kothawoc.Messages.Body.{from_article}
use kothawoc.Peering.Manager
use kothawoc.Peering.Manager.{Node, with_store, send_me, distribute_article}
use kothawoc.Backend.{Session, World, tcp_mode, local_mode}

-- `post != nil && !post.Post`
abbrev pub closed_to : Option Permissions → Bool
closed_to none = false
closed_to (some p) = not p.post

abbrev is_zero : ℤ → Bool
is_zero (pos zero) = true
is_zero (pos (suc _)) = false
is_zero (negsuc _) = false

-- The number of an article's row, which is not negative.
abbrev pub row_number : ℤ → ℕ
row_number (pos n) = n
row_number (negsuc _) = 0

abbrev pub refuse : Node → Reply × Node
refuse node = (Messages.returned (some (sentinel posting_not_permitted)), node)

abbrev pub failed : Node → Reply × Node
failed node = (Messages.returned (some (sentinel posting_failed)), node)

-- A map of a card is nil where there is no card.
abbrev card_fields : Option (List CardField) → List CardField
card_fields none = []
card_fields (some fields) = fields

-- The result of a method of `BackendDbs` that returns an error alone.
abbrev pub reply : Returned (Unit {0}) × Store → Node → Reply × Node
reply (crashed, s) node = (Messages.panic, with_store s node)
reply (returned _ e, s) node = (Messages.returned e, with_store s node)

module _ (l : Library) (c : Crypto) (read_message : Bytes → Option (Header × Bytes))
    (remove_peer : Bytes → Db (Unit {0})) (decode_card : Bytes → List CardField)
    (my_key : EasyEdKey) where
  -- `cmf`; its `RemovePeer` is `remove_peer`.
  abbrev pub functions : Callbacks Node (List CardField)
  functions = record {
    new_group = λ name desc card node.
        reply (Client.new_group c read_message remove_peer name desc (card_fields card) node.store)
          node;
    add_peer = Manager.add_peer c read_message remove_peer my_key;
    cancel = λ from id newsgroups node.
        reply (Client.cancel_message c read_message remove_peer from id newsgroups node.store) node;
    sendme = send_me c read_message remove_peer my_key;
  }

  -- The loop over the groups of the message: those that the poster may post to and that have a number, with
  -- the number; `none` is a panic.
  unfoldable pub postable_groups : Session → List Bytes → Dict ℤ → Store → Option (Dict ℤ) × Store
  postable_groups session [] found s = (some found, s)
  postable_groups session (name ∷ names) found s =
      let group = trim_space name in
      let (r, s1) = Client.get_perms c read_message remove_peer session.id group s in
      elim r [
        | crashed ↦ (none, s1)
        | returned perms _ ↦
            if closed_to perms
            then postable_groups session names found s1
            else let (q, s2) = Client.get_group_number c read_message remove_peer group s1 in
              elim q [
                | crashed ↦ (none, s2)
                | returned id _ ↦
                    postable_groups session names
                      (if is_zero id then found else insert group id found) s2
              ]
      ]

  -- The loop over the postable groups.
  unfoldable pub add_to_groups : Dict ℤ → Bytes → ℕ → Store → Reply × Store
  add_to_groups [] mid id s = (Messages.returned none, s)
  add_to_groups ((group, _) ∷ groups) mid id s =
      let (r, s') = Client.add_article_to_group c read_message remove_peer group mid id s in
      elim r [
        | crashed ↦ (Messages.panic, s')
        | returned _ e ↦ elim e [
          | some x ↦ (Messages.returned (some x), s')
          | none ↦ add_to_groups groups mid id s'
        ]
      ]

  -- What `Post` does once it knows the groups; `storeArticle` writes the message once its row is there.
  unfoldable pub store : World → MessageTool → Dict ℤ → Node → Reply × Node
  unfolding add_to_groups
  store world m [] node = failed node
  store world m (group ∷ groups) node =
      let (text, m') = raw_mail l (world.boundary 3) m in
      let (r, s) =
        Client.store_article c read_message remove_peer m'.article.header text node.store in
      elim r [
        | crashed ↦ (Messages.panic, with_store s node)
        | returned id e ↦ elim e [
          | some x ↦ (Messages.returned (some x), with_store s node)
          | none ↦
              let node' =
                distribute_article c read_message remove_peer my_key world.visit_peers m'
                  (with_store s node) in
              let (reply, s') =
                add_to_groups (world.visit_groups (group ∷ groups))
                  (get m'.article.header message_id) (row_number id) node'.store in
              (reply, with_store s' node')
        ]
      ]

  -- `CheckControl`, and what follows it.
  unfoldable pub accept : World → Session → MessageTool → Node → Reply × Node
  unfolding store postable_groups
  accept world session m node =
      let (r, node') =
        check_control decode_card functions session.id m.article.header m.parts node in
      elim r [
        | Messages.panic ↦ (Messages.panic, node')
        | Messages.returned e ↦ elim e [
          | some _ ↦ failed node'
          | none ↦
              let (groups, s) =
                postable_groups session (split b',' (get m.article.header (codes "Newsgroups"))) []
                  node'.store in
              elim groups [
                | none ↦ (Messages.panic, with_store s node')
                | some found ↦ store world m found (with_store s node')
              ]
        ]
      ]

  -- Is the connection local?
  abbrev pub is_local : Session → Bool
  is_local session = beq session.conn_mode tcp_mode || beq session.conn_mode local_mode

  -- The new path; `none` where a peer sends none.
  unfoldable pub new_path : Session → Bytes → Bytes → Option Bytes
  new_path session id path =
      if is_local session
      then (if beq path []
          then some (id ++ codes "!.POSTED")
          else some (id ++ (codes "!.POSTED!" ++ path)))
      else if beq path []
      then none
      else some (id ++ (33 ∷ path))

  -- `Post` once the message is verified.
  unfoldable pub route : World → Session → MessageTool → Node → Reply × Node
  unfolding accept new_path
  route world session m node =
      let (r, s) = Client.config_get_bytes c read_message remove_peer device_key node.store in
      elim r [
        | crashed ↦ (Messages.panic, with_store s node)
        | returned key _ ↦ elim (tor_id c (set_tor_private_key key empty_key)) [
          | Keytool.err _ ↦ failed (with_store s node)
          | Keytool.ok id ↦ elim (new_path session id (get m.article.header (codes "Path"))) [
            | none ↦ refuse (with_store s node)
            | some path ↦
                accept world session (with_field l (codes "Path") path m) (with_store s node)
          ]
        ]
      ]

  -- The date of a message that is signed here.
  abbrev dated : Bytes → MessageTool → MessageTool
  dated now m =
      if beq (get m.article.header (codes "Date")) [] then with_field l (codes "Date") now m else m

  -- The signing of a message from a local connection that has no signature; the errors are dropped.
  unfoldable pub sign_local : World → Session → MessageTool → Store → Option MessageTool × Store
  unfolding sign
  sign_local world session m s =
      if is_local session
      then (if beq (get m.article.header signature_header) []
          then (let (r, s') = Client.config_get_device_key c read_message remove_peer s in
              elim r [
                | crashed ↦ (none, s')
                | returned key _ ↦
                    let (w, m') =
                      sign l c key (world.boundary 0) (world.boundary 1) (dated world.now m) in
                    elim w [
                      | Tool.ok _ ↦ (some m', s')
                      | Tool.err _ ↦ (some m', s')
                      | Tool.panic ↦ (none, s')
                    ]
              ])
          else (some m, s))
      else (some m, s)

  -- What `Post` does with a message that may be signed now.
  unfoldable pub check : World → Session → MessageTool → Node → Reply × Node
  unfolding route verify
  check world session m node =
      let (verdict, m') = verify l c (world.boundary 2) m in
      elim verdict [
        | none ↦ (Messages.panic, node)
        | some good ↦ if good then route world session m' node else refuse node
      ]

  -- `Post`
  unfoldable pub post : World → Session → Article → Node → Reply × Node
  unfolding check sign_local from_article
  post world session article node = elim (from_article l article) [
    | none ↦ (Messages.panic, node)
    | some m ↦
        let (signed, s) = sign_local world session m node.store in
        elim signed [
          | none ↦ (Messages.panic, with_store s node)
          | some m' ↦ check world session m' (with_store s node)
        ]
  ]
