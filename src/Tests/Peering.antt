-- ===== src/Tests/Peering.antt =====
-- A node `abc` that feeds its peer `xyz`.
use kothawoc.Prelude.{
  List, ℕ, Bytes, codes, beq, true, false, Option, none, some, [], ◌∷◌, ◌≡◌, refl, arith, sym, ap,
  ◌∙◌,
}
use mathlib.Core.Path.{subst}
use kothawoc.Prelude.Int.{ℤ, pos}
use kothawoc.Serror.{Error}
use kothawoc.Header.{Header, get}
use kothawoc.Text.{split}
use kothawoc.Dict.{lookup, open_file}
use kothawoc.Table.{next_after, find_id, find_key}
use kothawoc.Table.Pending.{pending}
use kothawoc.Databases.State.{Store, GroupDb, int}
use kothawoc.Databases.Articles.{Article, article_of, after_blank_line}
use kothawoc.Databases.Cancel.{contains_str}
use kothawoc.Messages
use kothawoc.Messages.Tool.{MessageTool, raw_mail}
use kothawoc.Messages.Body.{from_article}
use kothawoc.Peering.{Peer, Sent, silent, posted, last_message, send_messages, rounds}
use kothawoc.Peering.Feed.{IsFeeding, IsReadable, outcome, send_messages_lem}
use kothawoc.Peering.Safety.{ReadsOneOf, send_messages-posted, rounds_blocked}
use kothawoc.Table.{Row}
use kothawoc.Databases.State.{PeerData}
use kothawoc.Peering.Queue.{IsServable, deliveries}
use kothawoc.Peering.Draining.{rounds-deliveries, rounds-rest}
use kothawoc.Peering.Worker.{Dial, Turn, worker}
use kothawoc.Peering.Worker.Delivering.{worker-deliveries}
use kothawoc.Peering.Manager.{PeerCommand, Node, send_me, drop_peer, connect_all}
use kothawoc.Peering.Membership.{sendme_crashes, peer_of, removed_peer_returns}
use kothawoc.Keytool.{empty_key}
use kothawoc.Tests.Data.{
  toy, node, lounge, lounge_db, first_text, first_header, read_first, ignore_peer,
}
use kothawoc.Tests.Messages.{plain}

abbrev pub xyz : Peer
xyz = record {
  my_tor_id = codes "abc";
  peer_tor_id = codes "xyz";
  group_name = codes "abc.peers.xyz";
  connected = true;
}

-- The group for the peer, from which nothing was sent yet.
abbrev peer_db : GroupDb
peer_db = record {
  articles = [];
  subscriptions = [];
  config = (last_message, int (pos 0)) ∷ [];
  perms = [];
}

abbrev feeding : Store
feeding = record node {
  group_articles = (lounge, 7) ∷ (codes "abc.peers.xyz", 8) ∷ [];
  disk = (7, lounge_db) ∷ (8, peer_db) ∷ [];
}

abbrev accepts : Bytes → Option Error
accepts text = none

feeding-IsFeeding : IsFeeding xyz 8 peer_db (pos 0) feeding
unfolding lookup open_file beq
feeding-IsFeeding = record {
  connected = refl;
  calm = refl;
  opened = refl;
  file = refl;
  config = refl;
}

abbrev first_article : Article
first_article = article_of (codes "hello") (first_header, codes "hello")

abbrev first_mail : MessageTool
first_mail = record { parts = []; preamble = codes "hello"; article = first_article }

first-IsReadable : IsReadable read_first feeding 9 first_article
unfolding find_id lookup beq after_blank_line kothawoc.Text.has_prefix
first-IsReadable = record {
  row = _;
  raw = first_text;
  body = codes "hello";
  content = (first_header, codes "hello");
  found = refl;
  file = refl;
  blank = refl;
  parsed = refl;
  same = refl;
  small = omega arith;
}

abbrev raw_text : Option Bytes → Bytes
raw_text none = []
raw_text (some t) = t

-- What `xyz` is sent.
abbrev first_raw : Bytes
first_raw = raw_text (raw_mail plain [] first_mail).0

first_parsed : from_article plain first_article ≡ some first_mail
unfolding from_article
first_parsed = refl

first_posted : outcome plain [] (codes "xyz") first_mail feeding ≡ posted first_raw
unfolding outcome contains_str split get lookup beq kothawoc.Header.canonical
    kothawoc.Databases.Perms.owner open_file raw_mail
first_posted = refl

first_next : next_after (pos 0) feeding.articles.rows ≡ some 9
unfolding next_after
first_next = refl

first_round :
    (send_messages plain toy read_first ignore_peer [] accepts xyz feeding).0 ≡ posted first_raw
first_round =
    ap (λ (x : Sent × Store). x.0)
      (send_messages_lem plain toy read_first ignore_peer [] accepts xyz 8 peer_db (pos 0) feeding
        feeding-IsFeeding 9 first_article first_mail first_next first-IsReadable first_parsed)
    ∙ first_posted

send_messages-posted_example :
    ((raw_mail plain [] first_mail).0 ≡ some first_raw)
    × (contains_str (split b'!' (get first_header (codes "Path"))) (codes "xyz") ≡ false)
    × ReadsOneOf (codes "xyz") feeding (split b',' (get first_header (codes "Newsgroups")))
unfolding raw_mail
send_messages-posted_example =
    send_messages-posted plain toy read_first ignore_peer [] xyz accepts 8 peer_db (pos 0) feeding 9
      first_article first_mail first_raw feeding-IsFeeding first_next first-IsReadable first_parsed
      first_round

-- The same node after a cancel has removed the file.
abbrev cancelled : Store
cancelled = record feeding { files = [] }

rounds_blocked_example :
    rounds plain toy read_first ignore_peer [] accepts 4 xyz cancelled ≡ ([], cancelled)
unfolding lookup open_file beq next_after find_id
rounds_blocked_example =
    rounds_blocked plain toy read_first ignore_peer [] xyz accepts 8 peer_db (pos 0) cancelled 9
      (record { connected = refl; calm = refl; opened = refl; file = refl; config = refl })
      (record { row = _; next = refl; found = refl; small = omega arith; missing = refl }) 4

only_nine : (last : ℤ) (num : ℕ) → next_after last feeding.articles.rows ≡ some num → num ≡ 9
unfolding next_after
only_nine last num h = ground (arith, h)

feeding-IsServable : IsServable plain read_first [] (codes "xyz") (λ num. first_mail) feeding
feeding-IsServable = record {
  at = λ last num next. (
    first_article,
    subst (λ (n : ℕ). IsReadable read_first feeding n first_article) (sym (only_nine last num next))
        first-IsReadable,
    first_parsed,
    λ h. ground (arith, h, first_posted),
  );
}

rounds-deliveries_example :
    (rounds plain toy read_first ignore_peer [] accepts 3 xyz feeding).0
    ≡ deliveries plain [] (codes "xyz") (λ num. first_mail) feeding (9 ∷ [])
unfolding pending
rounds-deliveries_example =
    rounds-deliveries plain toy read_first ignore_peer [] accepts xyz 8 (λ num. first_mail) 3
      peer_db (pos 0) feeding feeding-IsFeeding feeding-IsServable (omega arith)

abbrev nobody : Dial
nobody = record { random = []; dialled = none }

abbrev ticks : List Turn
ticks =
    record { command = PeerCommand.refresh; first = nobody; second = nobody }
    ∷ record { command = PeerCommand.connect; first = nobody; second = nobody }
    ∷ []

worker-deliveries_example :
    (worker plain toy read_first ignore_peer empty_key [] accepts ticks xyz feeding).0
    ≡ deliveries plain [] (codes "xyz") (λ num. first_mail) feeding (9 ∷ [])
unfolding pending
worker-deliveries_example =
    worker-deliveries plain toy read_first ignore_peer empty_key [] accepts xyz refl 8
      (λ num. first_mail) ticks peer_db (pos 0) feeding feeding-IsFeeding feeding-IsServable
      (omega arith) (refl, (refl, tt))

-- The texts are not nothing.
first_delivery :
    deliveries plain [] (codes "xyz") (λ num. first_mail) feeding (9 ∷ []) ≡ first_raw ∷ []
unfolding deliveries outcome contains_str split get lookup beq kothawoc.Header.canonical
    kothawoc.Databases.Perms.owner open_file raw_mail
first_delivery = refl

rounds-rest_example :
    let s' = (rounds plain toy read_first ignore_peer [] accepts 1 xyz feeding).1 in
    send_messages plain toy read_first ignore_peer [] accepts xyz s' ≡ (silent, s')
unfolding pending
rounds-rest_example =
    rounds-rest plain toy read_first ignore_peer [] accepts xyz 8 (λ num. first_mail) 1 peer_db
      (pos 0) feeding feeding-IsFeeding feeding-IsServable (omega arith)

-- The node with its one peer.
abbrev pub peered : Node
peered = record {
  store = feeding;
  conns = (codes "xyz", xyz) ∷ [];
  queued = [];
  workers = xyz ∷ [];
}

sendme_crashes_example :
    (send_me toy read_first ignore_peer empty_key
      (codes "xyz")
      (codes "abc.lounge")
      (codes "Feed: xyz")
      peered).0
    ≡ Messages.panic
sendme_crashes_example =
    sendme_crashes toy read_first ignore_peer empty_key (codes "xyz") (codes "abc.lounge")
      (codes "Feed: xyz") peered

abbrev xyz_row : Row PeerData
xyz_row = record { id = 3; key = codes "xyz"; rest = record { pubkey = codes "k"; name = [] } }

removed_peer_returns_example :
    let (gone, node') = drop_peer toy read_first ignore_peer empty_key (codes "xyz") peered in
    let (back, node'') = connect_all toy read_first ignore_peer empty_key node' in
    (gone ≡ Messages.returned none)
    × (lookup (codes "xyz") node'.conns ≡ none)
    × (node'.store ≡ feeding)
    × (back ≡ Messages.returned none)
    × (lookup (codes "xyz") node''.conns
        ≡ some (peer_of toy read_first ignore_peer empty_key (codes "xyz")))
    × (lookup (codes "xyz") node''.conns
        ≡ some (peer_of toy read_first ignore_peer empty_key (codes "xyz")))
unfolding lookup beq find_key
removed_peer_returns_example =
    removed_peer_returns toy read_first ignore_peer empty_key (codes "xyz") (codes "xyz") xyz
      xyz_row xyz_row peered refl refl refl refl
