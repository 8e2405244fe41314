-- ===== src/Tests/Backend.antt =====
-- What sessions ask of the node `abc`, and how it starts.
use kothawoc.Prelude.{
  ◌++◌, Bytes, codes, beq, Bool, true, none, some, List, [], ◌∷◌, ◌≡◌, refl, inl,
}
use kothawoc.Prelude.Int.{pos}
use kothawoc.Header.{Header, get, values}
use kothawoc.Dict.{lookup}
use kothawoc.Table.{Row, find_key}
use kothawoc.Keytool
use kothawoc.Keytool.{empty_key, tor_priv_key}
use kothawoc.Torutils
use kothawoc.Torutils.{server_handshake}
use kothawoc.Torutils.Reading.{Line, got, failed}
use kothawoc.Torutils.Hex.{encode, decode_all}
use kothawoc.Databases.State.{Store, PeerData}
use kothawoc.Databases.Groups.{CardField}
use kothawoc.Databases.Articles.{article_of, Article, message_id}
use kothawoc.Databases.Invariant.{IsValid}
use kothawoc.Databases.Client.{returned}
use kothawoc.Messages
use kothawoc.Messages.Tool.{MessageTool, verify, write_raw}
use kothawoc.Messages.Body.{from_article}
use kothawoc.Peering.Manager.{Node}
use kothawoc.Backend.{Session, World, tor_mode, local_mode}
use kothawoc.Backend.Reading.{get_article, get_article_with_no_group}
use kothawoc.Backend.Access.{get_article_any_group}
use kothawoc.Backend.Posting.{post, refuse, store}
use kothawoc.Backend.Refusal.{post_unverified}
use kothawoc.Backend.Invariant.Posting.{post-IsValid}
use kothawoc.Backend.Indexed.{indexed, store-indexed}
use kothawoc.Backend.Talk.{
  Request, Response, AllRefused, talk, empty, news, swapped, talk-authenticate,
}
use kothawoc.Client.{Client, auth_callback, tor_session, start_key}
use kothawoc.Client.Sessions.{allows, accepted_is_peer, restart_same_id}
use kothawoc.Tests.Data.{
  toy, toy-IsLawful, node, lounge, lounge_db, first_text, first_header, first_id, read_first,
  ignore_peer, readers,
}
use kothawoc.Tests.Server.{nothing_lost, node-IsValid}
use kothawoc.Tests.Handshake.{sealing, shared, sent}
use kothawoc.Tests.Messages.{plain, message}

abbrev from_xyz : Session
from_xyz = record { id = codes "xyz"; conn_mode = tor_mode }

abbrev pub here : Session
here = record { id = codes "abc"; conn_mode = local_mode }

abbrev pub quiet : World
quiet = record {
  now = codes "today";
  boundary = λ n. codes "b";
  visit_groups = λ d. d;
  visit_peers = λ d. d;
}

abbrev pub no_card : Bytes → List CardField
no_card b = []

abbrev pub alone : Node
alone = record { store = node; conns = []; queued = []; workers = [] }

-- A node whose one group does not have the article in its index.
abbrev unlisted : Store
unlisted = record node { disk = (7, record lounge_db { articles = [] }) ∷ [] }

get_article_any_group_example :
    (get_article toy read_first ignore_peer from_xyz lounge first_id unlisted
      ≡ (returned (some (article_of (codes "hello") (first_header, codes "hello"))) none, unlisted))
    × (get_article_with_no_group toy read_first ignore_peer from_xyz first_id unlisted ≡ (
      returned (some (article_of (codes "hello") (first_header, codes "hello"))) none,
      unlisted,
    ))
unfolding kothawoc.Databases.Articles.find_article kothawoc.Databases.Articles.has_entry
    kothawoc.Text.parse_int kothawoc.Table.find_key kothawoc.Databases.Articles.after_blank_line
    kothawoc.Text.has_prefix lookup beq kothawoc.Databases.Perms.owner kothawoc.Text.split
    kothawoc.Dict.open_file
get_article_any_group_example =
    get_article_any_group toy read_first ignore_peer from_xyz unlisted refl lounge first_id
      first_text (codes "hello") (codes "hello") first_header (record lounge_db { articles = [] }) 7
      readers
      (record { id = 9; key = first_id; rest = record { signature = codes "s1"; refs = pos 1 } })
      refl refl refl refl refl refl refl refl refl

-- A message with a key and a signature that is not the key's.
abbrev forged : Header
forged =
    (codes "Approved", encode shared ∷ []) ∷ (codes "X-Kothawoc-Signature", codes "no" ∷ []) ∷ []

post_unverified_example :
    post plain sealing read_first ignore_peer no_card empty_key quiet from_xyz
      (message forged).article
      alone
    ≡ refuse alone
unfolding from_article beq verify get lookup kothawoc.Header.canonical decode_all encode
post_unverified_example =
    post_unverified plain sealing read_first ignore_peer no_card empty_key quiet from_xyz
      (message forged).article alone (message forged) refl (inl refl) refl

-- A local user posts to the lounge.
abbrev pub hello : Header
hello = (codes "Newsgroups", lounge ∷ []) ∷ (codes "Message-Id", codes "<m2@abc>" ∷ []) ∷ []

post-IsValid_example :
    IsValid
      (post plain sealing read_first ignore_peer no_card empty_key quiet here
        (message hello).article
        alone).1.store
post-IsValid_example =
    post-IsValid plain sealing read_first ignore_peer no_card empty_key nothing_lost quiet here
      (message hello).article alone node-IsValid

store-indexed_example :
    (indexed
        (get hello message_id)
        lounge
        (store plain sealing read_first ignore_peer no_card empty_key quiet
          (message hello)
          ((lounge, pos 7) ∷ [])
          alone).1.store
      ≡ true)
    × Unit {0}
unfolding store kothawoc.Messages.Tool.raw_mail kothawoc.Databases.Client.store_article
    kothawoc.Databases.Server.serve kothawoc.Databases.Articles.store_article kothawoc.Table.add beq
    get lookup kothawoc.Header.canonical kothawoc.Databases.Client.add_article_to_group
    kothawoc.Databases.Articles.add_article_to_group kothawoc.Databases.Monad.handle
    kothawoc.Peering.Manager.distribute_article kothawoc.Databases.Monad.group_exec
    kothawoc.Dict.open_file
store-indexed_example =
    store-indexed sealing read_first ignore_peer plain no_card empty_key quiet (message hello)
      ((lounge, pos 7) ∷ []) alone refl

-- The node that knows the key that every pair shares.
abbrev friendly : Store
friendly = record node {
  peers = record {
    seq = 3;
    rows = record { id = 3; key = shared; rest = record { pubkey = shared; name = [] } } ∷ [];
  };
}

abbrev asks : Bytes → Bool
asks k = allows (auth_callback sealing read_first ignore_peer k friendly).0

welcome : (server_handshake sealing asks (codes "s") shared sent).1 ≡ Torutils.ok shared
unfolding server_handshake kothawoc.Torutils.Reading.read_line Torutils.client_line encode
    kothawoc.Text.split beq Keytool.tor_id Keytool.set_tor_public_key kothawoc.Torutils.Hex.decode
    auth_callback kothawoc.Databases.Client.get_peer_list kothawoc.Databases.Server.serve
    kothawoc.Databases.Peers.get_peer_list kothawoc.Client.listed
welcome = refl

accepted_is_peer_example :
    (r : Row PeerData) × (find_key shared friendly.peers.rows ≡ some r)
    × (tor_session sealing read_first ignore_peer shared
        ≡ Keytool.ok (record { id = shared; conn_mode = tor_mode }))
accepted_is_peer_example =
    accepted_is_peer sealing read_first ignore_peer friendly (codes "s") shared sent shared refl
      welcome

restart_same_id_example :
    (first : Client) × (second : Client) × (s' : Store) × (start_key toy read_first ignore_peer node
      ≡ (returned (some first) none, s'))
    × (start_key toy read_first ignore_peer s' ≡ (returned (some second) none, s'))
    × (second.device_id ≡ first.device_id)
    × (tor_priv_key toy second.device_key ≡ tor_priv_key toy first.device_key)
unfolding lookup beq
restart_same_id_example =
    restart_same_id toy read_first ignore_peer toy-IsLawful node (codes "k") refl refl refl

talk-authenticate_example :
    let (after, node') =
      talk plain sealing read_first ignore_peer no_card empty_key from_xyz news
        (Request.list_groups ∷ [])
        alone in
    (rs : List Response) × (talk plain sealing read_first ignore_peer no_card empty_key from_xyz
        empty
        (Request.get_group lounge
          ∷ (Request.authenticate (codes "who") (codes "ever") ∷ (Request.list_groups ∷ [])))
        alone
      ≡ (rs ++ (swapped (some news) ∷ after), node'))
    × AllRefused plain sealing read_first ignore_peer no_card empty_key from_xyz
        (Request.get_group lounge ∷ [])
        rs
talk-authenticate_example =
    talk-authenticate plain sealing read_first ignore_peer no_card empty_key from_xyz
      (Request.get_group lounge ∷ []) (Request.list_groups ∷ []) (codes "who") (codes "ever") alone
      (refl, tt)
