-- ===== src/Peering/Feed.antt =====
-- One round of the feed of a peer.
use kothawoc.Prelude.{
  ℕ, Bytes, codes, Bool, true, false, ◌||◌, inl, inr, Option, none, some, List, [], ◌∷◌, ◌≡◌, refl,
  arith, Option-cases, ◌<◌, ◌^◌, if◌then◌else◌,
}
use kothawoc.Prelude.Int.{ℤ, pos}
use kothawoc.Serror.{Error}
use kothawoc.Text.{split}
use kothawoc.Text.Decimal.{parse_int-format_int}
use kothawoc.Header.{Header, get}
use kothawoc.Dict.{lookup, insert, open_file, write_file}
use kothawoc.Table.{Row, next_after, find_id}
use kothawoc.Keytool.{Crypto}
use kothawoc.Databases.State.{Store, GroupDb, Stored, int}
use kothawoc.Databases.Monad.{Db, handle, if_open, group_query, group_exec}
use kothawoc.Databases.Perms.Laws.{expected, get_perms-expected}
use kothawoc.Databases.Config
use kothawoc.Databases.Config.{as_int64}
use kothawoc.Databases.Articles
use kothawoc.Databases.Articles.{
  Article, NumberedArticle, find_article, after_blank_line, article_of,
}
use kothawoc.Databases.Cancel.{contains_str}
use kothawoc.Databases.Server.{serve, answer, answer_error, answer_perms}
use kothawoc.Databases.Client
use kothawoc.Databases.Client.{returned, crashed, only_error, pass_error, only_value}
use kothawoc.Messages.Mime.{Library}
use kothawoc.Messages.Tool.{MessageTool, raw_mail}
use kothawoc.Messages.Body.{from_article}
use kothawoc.Peering.{
  Peer, Sent, silent, posted, panic, last_message, advance, may_read, send, offer, send_next,
  send_messages,
}

-- No call fails, the connection stands, and the group for the peer is open under number `n`, with the
-- tables `g` in which the last message that was offered has number `last`.
pub record IsFeeding (p : Peer) (n : ℕ) (g : GroupDb) (last : ℤ) (s : Store) : Type 0 where
  pub connected : p.connected ≡ true
  pub calm : s.faults ≡ []
  pub opened : lookup p.group_name s.group_articles ≡ some n
  pub file : open_file n s.disk ≡ some g
  pub config : lookup last_message g.config ≡ some (int last)

-- The state in which the number of the last message is another.
abbrev pub advanced : ℕ → GroupDb → ℕ → Store → Store
advanced n g num s = record s {
  disk = write_file n (record g { config = insert last_message (int (pos num)) g.config }) s.disk;
}

module _ (l : Library) (c : Crypto) (read_message : Bytes → Option (Header × Bytes))
    (remove_peer : Bytes → Db (Unit {0})) (random : Bytes) (post : Bytes → Option Error) (p : Peer)
    (n : ℕ) (g : GroupDb) (last : ℤ) (s : Store) (feeding : IsFeeding p n g last s) where
  advance_calm :
      (num : ℕ) (sent : Sent)
      → advance l c read_message remove_peer random post p num sent s ≡ (sent, advanced n g num s)
  unfolding advance Client.group_config_set only_error serve answer_error Config.group_config_set
      handle if_open group_exec
  advance_calm num sent = ground (arith, feeding.calm, feeding.opened, feeding.file)

  pub get_perms_calm :
      (torid group : Bytes)
      → Client.get_perms c read_message remove_peer torid group s
        ≡ (returned (expected torid group s) none, s)
  unfolding Client.get_perms only_value serve answer_perms
  get_perms_calm torid group = rw (get_perms-expected torid group s feeding.calm) refl

  pub last_calm :
      Client.group_config_get_int64 c read_message remove_peer p.group_name last_message s
      ≡ (returned last none, s)
  unfolding Client.group_config_get_int64 pass_error serve answer Config.group_config_get_int64
      handle if_open group_query as_int64
  last_calm = ground (arith, feeding.calm, feeding.opened, feeding.file, feeding.config)

-- The article under a number, which a file holds that `net/mail` can read.
pub record IsReadable (read_message : Bytes → Option (Header × Bytes)) (s : Store) (num : ℕ)
    (a : Article) : Type 0 where
  pub row : Row Stored
  pub raw : Bytes
  pub body : Bytes
  pub content : Header × Bytes
  pub found : find_id num s.articles.rows ≡ some row
  pub file : lookup row.rest.signature s.files ≡ some raw
  pub blank : after_blank_line raw ≡ some body
  pub parsed : read_message raw ≡ some content
  pub same : a ≡ article_of body content
  pub small : num < 2 ^ 63

-- The verdict on the article's groups: does the peer have Read in one of them, `none` where it has nil
-- permissions in one?
unfoldable pub verdict : Bytes → List Bytes → Bool → Store → Option Bool
verdict peer [] found s = some found
verdict peer (group ∷ groups) found s = elim (expected peer group s) [
  | none ↦ none
  | some given ↦ verdict peer groups (given.read || found) s
]

-- A peer that is not in the path and may read one of the groups is sent the raw mail.
unfoldable pub outcome : Library → Bytes → Bytes → MessageTool → Store → Sent
unfolding verdict
outcome l random peer m s =
    if contains_str (split b'!' (get m.article.header (codes "Path"))) peer
    then silent
    else elim (verdict peer (split b',' (get m.article.header (codes "Newsgroups"))) false s) [
      | none ↦ panic
      | some granted ↦
          if granted
          then elim (raw_mail l random m).0 [ none ↦ panic | some text ↦ posted text ]
          else silent
    ]

-- The state after an article was offered.
abbrev pub offered : Sent → ℕ → GroupDb → ℕ → Store → Store
offered panic n g num s = s
offered silent n g num s = advanced n g num s
offered (posted _) n g num s = advanced n g num s

module _ (l : Library) (c : Crypto) (read_message : Bytes → Option (Header × Bytes))
    (remove_peer : Bytes → Db (Unit {0})) (random : Bytes) (post : Bytes → Option Error) (p : Peer)
    (n : ℕ) (g : GroupDb) (last : ℤ) (s : Store) (feeding : IsFeeding p n g last s) where
  may_read_calm :
      (groups : List Bytes) (found : Bool)
      → may_read l c read_message remove_peer random post p groups found s
        ≡ (verdict p.peer_tor_id groups found s, s)
  unfolding may_read verdict
  may_read_calm [] found = refl
  may_read_calm (group ∷ groups) found = ground (
    arith,
    get_perms_calm l c read_message remove_peer random post p n g last s feeding p.peer_tor_id
        group,
    may_read_calm groups true,
    may_read_calm groups found,
  )

  send_calm :
      (num : ℕ) (m : MessageTool)
      → let o : Sent = elim (raw_mail l random m).0 [ none ↦ panic | some text ↦ posted text ] in
        send l c read_message remove_peer random post p num m s ≡ (o, offered o n g num s)
  unfolding send
  send_calm num m = elim (Option-cases (raw_mail l random m).0) [
    | inl e ↦ ground (arith, e)
    | inr (text, e) ↦ ground (
      arith,
      e,
      advance_calm l c read_message remove_peer random post p n g last s feeding num (posted text),
    )
  ]

  offer_calm :
      (num : ℕ) (m : MessageTool)
      → offer l c read_message remove_peer random post p num m s ≡ (
        outcome l random p.peer_tor_id m s,
        offered (outcome l random p.peer_tor_id m s) n g num s,
      )
  unfolding offer outcome
  offer_calm num m = ground (
    arith,
    may_read_calm (split b',' (get m.article.header (codes "Newsgroups"))) false,
    advance_calm l c read_message remove_peer random post p n g last s feeding num silent,
    send_calm num m,
  )

  next_calm :
      (num : ℕ) (a : Article)
      → next_after last s.articles.rows ≡ some num
      → IsReadable read_message s num a
      → Client.get_next_article c read_message remove_peer last s
        ≡ (returned (some (record { num = num; article = a })) none, s)
  unfolding Client.get_next_article pass_error serve answer Articles.get_next_article
      Articles.get_article_by_id Articles.get_article_by_signature find_article
  next_calm num a next h = ground (
    arith,
    feeding.calm,
    h.found,
    h.file,
    h.blank,
    h.parsed,
    h.same,
    parse_int-format_int num h.small,
  )

  -- Where the next article past the last one can be read and parsed, a round offers it, with the outcome
  -- that the path and the permissions give, and steps past it unless it panics.
  pub send_messages_lem :
      (num : ℕ) (a : Article) (m : MessageTool)
      → next_after last s.articles.rows ≡ some num
      → IsReadable read_message s num a
      → from_article l a ≡ some m
      → send_messages l c read_message remove_peer random post p s ≡ (
        outcome l random p.peer_tor_id m s,
        offered (outcome l random p.peer_tor_id m s) n g num s,
      )
  unfolding send_messages send_next
  send_messages_lem num a m next h parsed = ground (
    arith,
    feeding.connected,
    last_calm l c read_message remove_peer random post p n g last s feeding,
    next_calm num a next h,
    offer_calm num m,
  )
