-- ===== src/Peering.antt =====
-- internal/peering/peering.go: the peers of a node, and what they are sent.
pub mod Feed
pub mod Manager
pub mod Membership
pub mod Worker
pub mod Safety
pub mod Queue
pub mod Draining
use kothawoc.Prelude.{
  ℕ, zero, suc, Bytes, codes, beq, Bool, true, false, ◌||◌, Option, none, some, List, [], ◌∷◌,
  if◌then◌else◌,
}
use kothawoc.Prelude.Int.{ℤ, pos}
use kothawoc.Serror.{Error}
use kothawoc.Text.{split}
use kothawoc.Header.{Header, get}
use kothawoc.Keytool
use kothawoc.Keytool.{Crypto, EasyEdKey, tor_id}
use kothawoc.Databases.State.{Store, int}
use kothawoc.Databases.Monad.{Db}
use kothawoc.Databases.Peers.{peer_group}
use kothawoc.Databases.Cancel.{contains_str}
use kothawoc.Databases.Articles.{NumberedArticle}
use kothawoc.Databases.Client.{
  Returned, returned, crashed, get_perms, group_config_set, group_config_get_int64,
  get_next_article,
}
use kothawoc.Messages.Mime.{Library}
use kothawoc.Messages.Tool.{MessageTool, raw_mail}
use kothawoc.Messages.Body.{from_article}

-- `Peer`: the identifiers and the group are fixed; `connected` is `Conn != nil`.
pub record Peer : Type 0 where
  pub my_tor_id : Bytes
  pub peer_tor_id : Bytes
  pub group_name : Bytes
  pub connected : Bool

abbrev pub or_empty : Keytool.Result Bytes → Bytes
or_empty (Keytool.ok b) = b
or_empty (Keytool.err _) = []

-- `NewPeer`, before its worker runs.
unfoldable pub new_peer : Crypto → EasyEdKey → EasyEdKey → Peer
new_peer c my_key peer_key =
    let mine : Bytes = or_empty (tor_id c my_key) in
    let theirs : Bytes = or_empty (tor_id c peer_key) in
    record {
      my_tor_id = mine;
      peer_tor_id = theirs;
      group_name = peer_group mine theirs;
      connected = false;
    }

-- What a round of `SendMessages` hands to `Client.Post`, or its panic.
pub data Sent : Type 0 where
  silent : Sent
  posted : Bytes → Sent
  panic : Sent

abbrev pub last_message : Bytes
last_message = codes "LastMessage"

-- `Client.Post` of go-nntp is `post`, with its error; `random` is the boundary that
-- `multipart.NewWriter` chooses.
module _ (l : Library) (c : Crypto) (read_message : Bytes → Option (Header × Bytes))
    (remove_peer : Bytes → Db (Unit {0})) (random : Bytes) (post : Bytes → Option Error) where
  -- `GroupConfigSet(p.GroupName, "LastMessage", art.Num)`, whose error is logged.
  unfoldable pub advance : Peer → ℕ → Sent → Store → Sent × Store
  advance p num sent s =
      let (r, s') =
        group_config_set c read_message remove_peer p.group_name last_message (int (pos num)) s in
      elim r [ crashed ↦ (panic, s') | returned _ _ ↦ (sent, s') ]

  -- The loop over the groups of the article: may the peer read one of them? Permissions that are nil
  -- panic, `none`.
  unfoldable pub may_read : Peer → List Bytes → Bool → Store → Option Bool × Store
  may_read p [] found s = (some found, s)
  may_read p (group ∷ groups) found s =
      let (r, s') = get_perms c read_message remove_peer p.peer_tor_id group s in
      elim r [
        | crashed ↦ (none, s')
        | returned perms _ ↦ elim perms [
          | none ↦ (none, s')
          | some given ↦ may_read p groups (given.read || found) s'
        ]
      ]

  -- What is done with an article that the peer may read: whether `Client.Post` fails makes no
  -- difference.
  unfoldable pub send : Peer → ℕ → MessageTool → Store → Sent × Store
  unfolding advance
  send p num m s = elim (raw_mail l random m).0 [
    | none ↦ (panic, s)
    | some text ↦ elim (post text) [
      | some _ ↦ advance p num (posted text) s
      | none ↦ advance p num (posted text) s
    ]
  ]

  -- `SendMessages` once the next message is there.
  unfoldable pub offer : Peer → ℕ → MessageTool → Store → Sent × Store
  unfolding send may_read advance
  offer p num m s =
      let header : Header = m.article.header in
      if contains_str (split b'!' (get header (codes "Path"))) p.peer_tor_id
      then advance p num silent s
      else let (allowed, s') = may_read p (split b',' (get header (codes "Newsgroups"))) false s in
        elim allowed [
          | none ↦ (panic, s')
          | some granted ↦ if granted then send p num m s' else advance p num silent s'
        ]

  -- `GetNextArticle`, and what follows it.
  unfoldable pub send_next : Peer → ℤ → Store → Sent × Store
  unfolding offer
  send_next p last s =
      let (r, s') = get_next_article c read_message remove_peer last s in
      elim r [
        | crashed ↦ (panic, s')
        | returned art e ↦ elim e [
          | some _ ↦ (silent, s')
          | none ↦ elim art [
            | none ↦ (silent, s')
            | some a ↦ elim (from_article l a.article) [
              | none ↦ (panic, s')
              | some m ↦ offer p a.num m s'
            ]
          ]
        ]
      ]

  -- `SendMessages`
  unfoldable pub send_messages : Peer → Store → Sent × Store
  unfolding send_next
  send_messages p s =
      if p.connected
      then (let (r, s') =
            group_config_get_int64 c read_message remove_peer p.group_name last_message s in
          elim r [
            | crashed ↦ (panic, s')
            | returned last e ↦ elim e [ some _ ↦ (silent, s') | none ↦ send_next p last s' ]
          ])
      else (silent, s)

  -- The texts that are posted in so many rounds of the worker while the connection stands; a panic
  -- ends it.
  unfoldable pub rounds : ℕ → Peer → Store → List Bytes × Store
  unfolding send_messages
  rounds zero p s = ([], s)
  rounds (suc k) p s =
      let (sent, s') = send_messages p s in
      let (texts, s'') = rounds k p s' in
      elim sent [ silent ↦ (texts, s'') | posted text ↦ (text ∷ texts, s'') | panic ↦ ([], s') ]
