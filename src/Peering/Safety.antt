-- ===== src/Peering/Safety.antt =====
-- What a peer is sent, and what keeps it from being sent anything.
use kothawoc.Prelude.{
  ℕ, zero, suc, Bytes, codes, Bool, true, false, ◌||◌, ◌⊎◌, inl, inr, Option, none, some, List, [],
  ◌∷◌, ◌≡◌, refl, arith, Option-cases, Bool-cases, ◌<◌, ◌^◌, ◌∙◌, ap, sym,
}
use kothawoc.Prelude.Int.{ℤ}
use kothawoc.Serror.{Error}
use kothawoc.Text.{split}
use kothawoc.Text.Decimal.{parse_int-format_int}
use kothawoc.Header.{Header, get}
use kothawoc.Dict.{lookup}
use kothawoc.Table.{Row, next_after, find_id}
use kothawoc.Keytool.{Crypto}
use kothawoc.Databases.State.{Store, GroupDb, Stored, Permissions}
use kothawoc.Databases.Monad.{Db}
use kothawoc.Databases.Perms.Laws.{expected}
use kothawoc.Databases.Articles
use kothawoc.Databases.Articles.{Article, find_article}
use kothawoc.Databases.Cancel.{contains_str}
use kothawoc.Databases.Server.{serve, answer}
use kothawoc.Databases.Client
use kothawoc.Databases.Client.{returned, pass_error}
use kothawoc.Messages.Mime.{Library}
use kothawoc.Messages.Tool.{MessageTool, raw_mail}
use kothawoc.Messages.Body.{from_article}
use kothawoc.Peering.{Peer, Sent, silent, posted, send_next, send_messages, rounds}
use kothawoc.Peering.Feed.{IsFeeding, IsReadable, verdict, outcome, last_calm, send_messages_lem}

-- One of the groups is one in which the peer has Read.
abbrev pub ReadsOneOf : Bytes → Store → List Bytes → Type 0
ReadsOneOf peer s [] = ⊥
ReadsOneOf peer s (group ∷ groups) =
    ((given : Permissions) × (expected peer group s ≡ some given) × (given.read ≡ true))
    ⊎ ReadsOneOf peer s groups

verdict-ReadsOneOf :
    (peer : Bytes) (groups : List Bytes) (found : Bool) (s : Store)
    → verdict peer groups found s ≡ some true
    → (found ≡ true) ⊎ ReadsOneOf peer s groups
unfolding verdict
verdict-ReadsOneOf peer [] found s h = inl (ground (arith, h))
verdict-ReadsOneOf peer (group ∷ groups) found s h = elim (Option-cases (expected peer group s)) [
  | inl e ↦ ground (arith, h, e)
  | inr (given, e) ↦
      elim (verdict-ReadsOneOf peer groups (given.read || found) s (ground (arith, h, e))) [
        | inr later ↦ inr (inr later)
        | inl one ↦ elim (Bool-cases given.read) [
          | inl reads ↦ inr (inl (given, e, reads))
          | inr not ↦ inl (ground (arith, one, not))
        ]
      ]
]

posted_outcome :
    (l : Library) (random peer text : Bytes) (m : MessageTool) (s : Store)
    → outcome l random peer m s ≡ posted text
    → (contains_str (split b'!' (get m.article.header (codes "Path"))) peer ≡ false)
      × (verdict peer (split b',' (get m.article.header (codes "Newsgroups"))) false s ≡ some true)
      × ((raw_mail l random m).0 ≡ some text)
unfolding outcome
posted_outcome l random peer text m s h = (ground arith, ground arith, ground arith)

module _ (l : Library) (c : Crypto) (read_message : Bytes → Option (Header × Bytes))
    (remove_peer : Bytes → Db (Unit {0})) (random : Bytes) (p : Peer) where
  -- While no call fails, the connection stands, the group for the peer is open with the number of
  -- the last message in it, and the next article past that one can be read and parsed, a text that
  -- is posted to a peer is that article's raw mail, the peer is not in its path, and in one of its
  -- groups the permissions of the peer have Read.
  pub send_messages-posted :
      (post : Bytes → Option Error) (n : ℕ) (g : GroupDb) (last : ℤ) (s : Store) (num : ℕ)
      (a : Article) (m : MessageTool) (text : Bytes)
      → IsFeeding p n g last s
      → next_after last s.articles.rows ≡ some num
      → IsReadable read_message s num a
      → from_article l a ≡ some m
      → (send_messages l c read_message remove_peer random post p s).0 ≡ posted text
      → ((raw_mail l random m).0 ≡ some text)
        × (contains_str (split b'!' (get m.article.header (codes "Path"))) p.peer_tor_id ≡ false)
        × ReadsOneOf p.peer_tor_id s (split b',' (get m.article.header (codes "Newsgroups")))
  send_messages-posted post n g last s num a m text feeding next readable parsed h =
      let step =
        send_messages_lem l c read_message remove_peer random post p n g last s feeding num a m next
          readable parsed in
      let (path, granted, raw) =
        posted_outcome l random p.peer_tor_id text m s
          (sym (ap (λ (x : Sent × Store). x.0) step) ∙ h) in
      (
        raw,
        path,
        elim (verdict-ReadsOneOf p.peer_tor_id
            (split b',' (get m.article.header (codes "Newsgroups"))) false s granted) [
              | inl wrong ↦ ground (arith, wrong)
              | inr reads ↦ reads
            ],
      )

  -- A row past the last one whose file is gone.
  pub record IsBlocked (s : Store) (last : ℤ) (num : ℕ) : Type 0 where
    pub row : Row Stored
    pub next : next_after last s.articles.rows ≡ some num
    pub found : find_id num s.articles.rows ≡ some row
    pub small : num < 2 ^ 63
    pub missing : lookup row.rest.signature s.files ≡ none

  module _ (post : Bytes → Option Error) (n : ℕ) (g : GroupDb) (last : ℤ) (s : Store) (num : ℕ)
      (feeding : IsFeeding p n g last s) (blocked : IsBlocked s last num) where
    blocked_round : send_messages l c read_message remove_peer random post p s ≡ (silent, s)
    unfolding send_messages send_next Client.get_next_article pass_error serve answer
        Articles.get_next_article Articles.get_article_by_id Articles.get_article_by_signature
        find_article
    blocked_round = ground (
      arith,
      feeding.connected,
      feeding.calm,
      last_calm l c read_message remove_peer random post p n g last s feeding,
      blocked.next,
      blocked.found,
      blocked.missing,
      parse_int-format_int num blocked.small,
    )

    -- While no call fails, the connection stands and the group for the peer is open with the number
    -- of the last message in it, if the next article past that one has a number below 2^63 and a
    -- row whose file is gone, as it is after a cancel, then no round of the feed ever posts
    -- anything to the peer or changes anything again, whatever articles come after it.
    pub rounds_blocked : (k : ℕ) → rounds l c read_message remove_peer random post k p s ≡ ([], s)
    unfolding rounds
    rounds_blocked zero = refl
    rounds_blocked (suc k) = ground (arith, blocked_round, rounds_blocked k)
