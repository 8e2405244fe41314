-- ===== src/Client.antt =====
-- client.go: how a node starts, whom it lets in, and what its user sends.
pub mod Sessions
use kothawoc.Prelude.{
  ℕ, String, Bytes, codes, beq, Bool, true, false, ◌||◌, Option, none, some, List, [], ◌∷◌, ◌++◌,
  if◌then◌else◌,
}
use kothawoc.Prelude.Int.{ℤ}
use kothawoc.Serror.{Error, Caller, new, serror}
use kothawoc.Text.{format_int}
use kothawoc.Header.{Header}
use kothawoc.Keytool
use kothawoc.Keytool.{
  Crypto, EasyEdKey, Result, empty_key, generate_key, tor_id, tor_priv_key, tor_pub_key,
  set_tor_public_key,
}
use kothawoc.Torutils.Hex.{encode}
use kothawoc.Databases.State.{Store, Value, blob}
use kothawoc.Databases.Monad.{Db}
use kothawoc.Databases.Config.{device_key}
use kothawoc.Databases.Client as Dbs
use kothawoc.Databases.Client.{Returned, returned, crashed}
use kothawoc.Messages.Mime.{Library}
use kothawoc.Messages.Tool
use kothawoc.Messages.Tool.{MessageTool, Written, lower, sign, with_field}
use kothawoc.Messages.Create.{Field, Stamp, create_news_group_mail, create_peer_group}
use kothawoc.Databases.Groups.{Posting}
use kothawoc.Backend.{Session, tor_mode, tcp_mode, local_mode}

-- `Client`: its key and its identifier.
pub record Client : Type 0 where
  pub device_key : EasyEdKey
  pub device_id : Bytes

abbrev or_empty : Result Bytes → Bytes
or_empty (Keytool.ok b) = b
or_empty (Keytool.err _) = []

abbrev pub site : String → ℕ → Caller
site name line = record { runtime_name = name; function = "client.go"; line = line }

-- `serr.New` of the error.
abbrev retraced : {A : Type 0} → Caller → Returned A × Store → Returned A × Store
retraced c (returned a e, s) = (returned a (new c e), s)
retraced c (crashed, s) = (crashed, s)

-- Is an identifier in the list of peers?
unfoldable pub listed : Bytes → List Bytes → Bool
listed id [] = false
listed id (n ∷ peers) = let rest = listed id peers in if beq n id then true else rest

-- The session of a connection to the local port, and that of `Dial`.
unfoldable pub tcp_session : Client → Session
tcp_session client = record { id = client.device_id; conn_mode = tcp_mode }

unfoldable pub local_session : Client → Session
local_session client = record { id = client.device_id; conn_mode = local_mode }

-- `GenID`, at a time and with a random number.
unfoldable pub gen_id : ℕ → ℕ → Bytes → Bytes
unfolding lower format_int
gen_id unix random node_name = lower (
    b'<'
    ∷ (format_int 32 unix
        ++ (b'-' ∷ (format_int 32 random ++ (b'@' ∷ (node_name ++ (b'>' ∷ [])))))))

module _ (c : Crypto) (read_message : Bytes → Option (Header × Bytes))
    (remove_peer : Bytes → Db (Unit {0})) where
  -- The callback of `torServer`: is the identifier of the key that of a peer? `none` is a panic.
  unfoldable pub auth_callback : Bytes → Store → Option Bool × Store
  auth_callback key s = elim (tor_id c (set_tor_public_key key empty_key)) [
    | Keytool.err _ ↦ (some false, s)
    | Keytool.ok id ↦
        let (r, s') = Dbs.get_peer_list c read_message remove_peer s in
        elim r [ crashed ↦ (none, s') | returned peers _ ↦ (some (listed id peers), s') ]
  ]

  -- The session of a connection whose handshake gave the key.
  unfoldable pub tor_session : Bytes → Result Session
  tor_session key = elim (tor_id c (set_tor_public_key key empty_key)) [
    | Keytool.err e ↦ Keytool.err e
    | Keytool.ok id ↦ Keytool.ok (record { id = id; conn_mode = tor_mode })
  ]

  -- The identifier of the key, and the client.
  unfoldable pub named : EasyEdKey → Returned (Option Client)
  unfolding tor_id
  named key = elim (tor_id c key) [
    | Keytool.err e ↦ returned none (some (serror (site "NewClient" 79) e))
    | Keytool.ok id ↦ returned (some (record { device_key = key; device_id = id })) none
  ]

  -- The key of `NewClient`, and the identifier: a key that cannot be read is made and stored.
  unfoldable pub start_key : Store → Returned (Option Client) × Store
  unfolding generate_key tor_priv_key
  start_key s =
      let (r, s1) = Dbs.config_get_device_key c read_message remove_peer s in
      elim r [
        | crashed ↦ (crashed, s1)
        | returned key e ↦ elim e [
          | none ↦ (named key, s1)
          | some _ ↦
              let key' = (generate_key c key).1 in
              let (r', s2) =
                Dbs.config_set c read_message remove_peer device_key
                  (blob (or_empty (tor_priv_key c key'))) s1 in
              elim r' [
                | crashed ↦ (crashed, s2)
                | returned _ e' ↦ elim e' [
                  | some x ↦ (returned none (new (site "NewClient" 72) (some x)), s2)
                  | none ↦ (named key', s2)
                ]
              ]
        ]
      ]

  -- `Client.ConfigSet`, `ConfigGetInt64`, `ConfigGetGetBytes` and `ConfigGetString`
  unfoldable pub config_set : Bytes → Value → Store → Returned (Unit {0}) × Store
  config_set key val s =
      retraced (site "ConfigSet" 122) (Dbs.config_set c read_message remove_peer key val s)

  unfoldable pub config_get_int64 : Bytes → Store → Returned ℤ × Store
  config_get_int64 key s =
      retraced (site "ConfigGetInt64" 131) (Dbs.config_get_int64 c read_message remove_peer key s)

  unfoldable pub config_get_bytes : Bytes → Store → Returned Bytes × Store
  config_get_bytes key s = Dbs.config_get_bytes c read_message remove_peer key s

  unfoldable pub config_get_string : Bytes → Store → Returned Bytes × Store
  config_get_string key s =
      retraced (site "ConfigGetString" 140) (Dbs.config_get_string c read_message remove_peer key s)

  -- `Client.Post`: `send` is `NNTPclient.Post`, with its error; `id` is what `GenID` gives, `random` and
  -- `random'` the boundaries. The error is nil, `none`, or what the method returns; `crashed` is a panic.
  unfoldable pub post :
      Library
      → (Bytes → Option Error)
      → Bytes
      → Bytes
      → Bytes
      → Client
      → MessageTool
      → Returned MessageTool
  unfolding sign
  post l send id random random' client mail =
      let (w, m) =
        sign l c client.device_key random random' (with_field l (codes "Message-id") id mail) in
      elim w [
        | Tool.panic ↦ crashed
        | Tool.err e ↦ returned m (some (serror (site "Post" 173) e))
        | Tool.ok text ↦ returned m (new (site "Post" 176) (send text))
      ]

  -- A mail that was written, or not, handed to `NNTPclient.Post`; the errors are at two lines.
  unfoldable pub deliver : String → ℕ → ℕ → (Bytes → Option Error) → Written → Returned (Unit {0})
  deliver name line line' send Written.panic = crashed
  deliver name line line' send (Tool.err e) = returned tt (some (serror (site name line) e))
  deliver name line line' send (Tool.ok mail) = returned tt (new (site name line') (send mail))

  module _ (l : Library) (encode_card : List Field → Option Bytes) (to_v4 : List Field → List Field)
      (nickname language : Bytes) (send : Bytes → Option Error) (client : Client)
      (stamp : Stamp) where
    -- `CreateNewGroup`
    unfoldable pub create_new_group : Bytes → Bytes → Posting → Returned (Unit {0})
    unfolding deliver create_news_group_mail
    create_new_group name description posting = deliver "CreateNewGroup" 148 151 send (
        create_news_group_mail l c encode_card to_v4 nickname language client.device_key stamp name
          description none posting)

    -- `Client.AddPeer`
    unfoldable pub add_peer : Bytes → Bytes → Returned (Unit {0})
    unfolding deliver create_peer_group
    add_peer torid myname = deliver "AddPeer" 161 164 send (
        create_peer_group l c encode_card to_v4 nickname language client.device_key stamp [] myname
          torid)
