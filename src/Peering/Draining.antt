-- ===== src/Peering/Draining.antt =====
-- The feed of a peer as a queue: what all its rounds together send.
use kothawoc.Prelude.{
  ℕ, zero, suc, Bytes, inl, inr, Option, none, some, List, [], ◌∷◌, ◌≡◌, refl, arith, Option-cases,
  ◌≤◌, length, sym,
}
use mathlib.Core.Path.{subst}
use kothawoc.Prelude.Int.{ℤ, pos}
use kothawoc.Serror.{Error}
use kothawoc.Header.{Header}
use kothawoc.Dict.{insert}
use kothawoc.Table.{next_after}
use kothawoc.Table.Pending.{pending, pending-next_after, FromHead}
use kothawoc.Keytool.{Crypto}
use kothawoc.Databases.State.{Store, GroupDb, int}
use kothawoc.Databases.Monad.{Db}
use kothawoc.Databases.Articles
use kothawoc.Databases.Articles.{Article}
use kothawoc.Databases.Server.{serve, answer}
use kothawoc.Databases.Client
use kothawoc.Databases.Client.{returned, pass_error}
use kothawoc.Messages.Mime.{Library}
use kothawoc.Messages.Tool.{MessageTool}
use kothawoc.Peering.{Peer, silent, last_message, send_next, send_messages, rounds}
use kothawoc.Peering.Feed.{IsFeeding, outcome, last_calm, send_messages_lem, advanced}
use kothawoc.Peering.Queue.{
  IsServable, deliveries, deliveries-advanced, advanced-IsServable, advanced-IsFeeding,
}

module _ (l : Library) (c : Crypto) (read_message : Bytes → Option (Header × Bytes))
    (remove_peer : Bytes → Db (Unit {0})) (random : Bytes) (post : Bytes → Option Error) (p : Peer)
    (n : ℕ) (mail : ℕ → MessageTool) where
  -- All rounds have been gone through, and the next changes nothing.
  abbrev Delivers : ℕ → Store → List ℕ → Type 0
  Delivers k s queue =
      let (texts, s') = rounds l c read_message remove_peer random post k p s in
      (texts ≡ deliveries l random p.peer_tor_id mail s queue)
      × (send_messages l c read_message remove_peer random post p s' ≡ (silent, s'))

  module _ (g : GroupDb) (last : ℤ) (s : Store) (feeding : IsFeeding p n g last s) where
    idle_round :
        next_after last s.articles.rows ≡ none
        → send_messages l c read_message remove_peer random post p s ≡ (silent, s)
    unfolding send_messages send_next Client.get_next_article pass_error serve answer
        Articles.get_next_article
    idle_round next = ground (
      arith,
      feeding.connected,
      feeding.calm,
      last_calm l c read_message remove_peer random post p n g last s feeding,
      next,
    )

    idle_rounds :
        (k : ℕ)
        → next_after last s.articles.rows ≡ none
        → rounds l c read_message remove_peer random post k p s ≡ ([], s)
    unfolding rounds
    idle_rounds zero next = refl
    idle_rounds (suc k) next = ground (arith, idle_round next, idle_rounds k next)

    pending-none : next_after last s.articles.rows ≡ none → pending last s.articles.rows ≡ []
    pending-none next =
        subst (FromHead last s.articles.rows) next (pending-next_after last s.articles.rows)

    pending-some :
        (num : ℕ)
        → next_after last s.articles.rows ≡ some num
        → pending last s.articles.rows ≡ num ∷ pending (pos num) s.articles.rows
    pending-some num next =
        subst (FromHead last s.articles.rows) next (pending-next_after last s.articles.rows)

    idle-Delivers :
        (k : ℕ)
        → next_after last s.articles.rows ≡ none
        → Delivers k s (pending last s.articles.rows)
    unfolding deliveries
    idle-Delivers k next = rw (pending-none next, idle_rounds k next) (refl, idle_round next)

    step-Delivers :
        (k num : ℕ)
        → IsServable l read_message random p.peer_tor_id mail s
        → next_after last s.articles.rows ≡ some num
        → Delivers k (advanced n g num s) (pending (pos num) s.articles.rows)
        → Delivers (suc k) s (num ∷ pending (pos num) s.articles.rows)
    unfolding rounds deliveries
    step-Delivers k num servable next (texts, rest) =
        let (a, readable, parsed, fine) = servable.at last num next in
        let o = outcome l random p.peer_tor_id (mail num) s in
        let step =
          send_messages_lem l c read_message remove_peer random post p n g last s feeding num a
            (mail num) next readable parsed in
        let same =
          deliveries-advanced n g num s feeding.file l random p.peer_tor_id mail
            (pending (pos num) s.articles.rows) in
        (ground (arith, step, fine, same, texts), ground (arith, step, fine, rest))

  all_rounds :
      (k : ℕ) (g : GroupDb) (last : ℤ) (s : Store)
      → IsFeeding p n g last s
      → IsServable l read_message random p.peer_tor_id mail s
      → length (pending last s.articles.rows) ≤ k
      → Delivers k s (pending last s.articles.rows)
  all_rounds zero g last s feeding servable enough =
      elim (Option-cases (next_after last s.articles.rows)) [
        | inl next ↦ idle-Delivers g last s feeding zero next
        | inr (num, next) ↦ ground (arith, enough, pending-some g last s feeding num next)
      ]
  all_rounds (suc k) g last s feeding servable enough =
      elim (Option-cases (next_after last s.articles.rows)) [
        | inl next ↦ idle-Delivers g last s feeding (suc k) next
        | inr (num, next) ↦
            let queue = pending-some g last s feeding num next in
            let rest =
              all_rounds k (record g { config = insert last_message (int (pos num)) g.config })
                (pos num) (advanced n g num s) (advanced-IsFeeding p n g last num s feeding)
                (advanced-IsServable n g num s feeding.file l read_message random p.peer_tor_id mail
                  servable)
                (ground (arith, enough, queue)) in
            subst (Delivers (suc k) s) (sym queue)
              (step-Delivers g last s feeding k num servable next rest)
      ]

  module _ (k : ℕ) (g : GroupDb) (last : ℤ) (s : Store) (feeding : IsFeeding p n g last s)
      (servable : IsServable l read_message random p.peer_tor_id mail s)
      (enough : length (pending last s.articles.rows) ≤ k) where
    -- While no call fails, the connection stands, the group for the peer is open with the number of
    -- the last message in it, and every stored article can be read, parsed and offered without a
    -- panic: any number of rounds that is at least the number of articles past the last one post,
    -- in the order of the articles' numbers, the raw mail of each one whose path does not have the
    -- peer and which has a group in which the peer has Read, and nothing else.
    pub rounds-deliveries :
        (rounds l c read_message remove_peer random post k p s).0
        ≡ deliveries l random p.peer_tor_id mail s (pending last s.articles.rows)
    rounds-deliveries = (all_rounds k g last s feeding servable enough).0

    -- While no call fails, the connection stands, the group for the peer is open with the number of
    -- the last message in it, and every stored article can be read, parsed and offered without a
    -- panic, the feed comes to rest: after as many rounds as there are articles past the last one,
    -- or more, a further round posts nothing and changes nothing.
    pub rounds-rest :
        let s' = (rounds l c read_message remove_peer random post k p s).1 in
        send_messages l c read_message remove_peer random post p s' ≡ (silent, s')
    rounds-rest = (all_rounds k g last s feeding servable enough).1
