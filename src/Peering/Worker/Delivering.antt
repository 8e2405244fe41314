-- ===== src/Peering/Worker/Delivering.antt =====
-- What the worker of a connected peer sends.
use kothawoc.Prelude.{
  ℕ, Bytes, Bool, true, false, Option, List, [], ◌∷◌, All, length, ◌≡◌, ◌≤◌, refl, arith, ap, ◌∙◌,
}
use kothawoc.Prelude.Int.{ℤ}
use kothawoc.Serror.{Error}
use kothawoc.Header.{Header}
use kothawoc.Keytool.{Crypto, EasyEdKey}
use kothawoc.Databases.State.{Store, GroupDb}
use kothawoc.Databases.Monad.{Db}
use kothawoc.Messages.Mime.{Library}
use kothawoc.Messages.Tool.{MessageTool}
use kothawoc.Peering.{Peer, rounds, send_messages}
use kothawoc.Peering.Feed.{IsFeeding}
use kothawoc.Table.Pending.{pending}
use kothawoc.Peering.Queue.{IsServable, deliveries}
use kothawoc.Peering.Draining.{rounds-deliveries}
use kothawoc.Peering.Manager.{
  PeerCommand, linked, connect, remove, exit, refresh, distribute, sendme, connect_peer,
}
use kothawoc.Peering.Worker.{Dial, Turn, obey, worker_round, worker}

-- A command other than Exit, which closes the connection, and Sendme, on which the worker panics.
abbrev pub goes_on : PeerCommand → Bool
goes_on connect = true
goes_on remove = true
goes_on refresh = true
goes_on (distribute _) = true
goes_on exit = false
goes_on (sendme _ _) = false

module _ (l : Library) (c : Crypto) (read_message : Bytes → Option (Header × Bytes))
    (remove_peer : Bytes → Db (Unit {0})) (my_key : EasyEdKey) (boundary : Bytes)
    (post : Bytes → Option Error) (p : Peer) (up : p.connected ≡ true) where
  connect_up :
      (random : Bytes) (dialled : Option (Bytes × Bool))
      → connect_peer c my_key random dialled p ≡ linked p
  unfolding connect_peer
  connect_up random dialled = ground (arith, up)

  -- A round of the worker is one of the feed.
  round-connected :
      (cmd : PeerCommand) (dial dial' : Dial) (s : Store)
      → goes_on cmd ≡ true
      → worker_round l c read_message remove_peer my_key boundary post dial dial' cmd p s ≡ (
        (linked p, (send_messages l c read_message remove_peer boundary post p s).0),
        (send_messages l c read_message remove_peer boundary post p s).1,
      )
  unfolding worker_round obey
  round-connected connect dial dial' s h =
      cc (connect_up dial.random dial.dialled, connect_up dial'.random dial'.dialled)
  round-connected remove dial dial' s h = cc (connect_up dial'.random dial'.dialled)
  round-connected refresh dial dial' s h = cc (connect_up dial'.random dial'.dialled)
  round-connected (distribute _) dial dial' s h = cc (connect_up dial'.random dial'.dialled)
  round-connected exit dial dial' s h = absurd (ground (arith, h))
  round-connected (sendme _ _) dial dial' s h = absurd (ground (arith, h))

  worker-rounds :
      (turns : List Turn) (s : Store)
      → All (λ t. goes_on t.command ≡ true) turns
      → worker l c read_message remove_peer my_key boundary post turns p s
        ≡ rounds l c read_message remove_peer boundary post (length turns) p s
  unfolding worker rounds
  worker-rounds [] s h = refl
  worker-rounds (t ∷ turns) s h = ground (
    arith,
    round-connected t.command t.first t.second s h.0,
    worker-rounds turns (send_messages l c read_message remove_peer boundary post p s).1 h.1,
  )

  -- While no call fails, the connection stands, the group for the peer is open with the number of the last
  -- message in it, and every stored article can be read, parsed and offered without a panic: the worker
  -- of the peer, given any messages but Exit and Sendme, as many as there are articles past the last one,
  -- or more, posts the raw mail of each of those articles whose path does not have the peer and which has a
  -- group in which the peer has Read, once and in the order of their numbers, and nothing else.
  pub worker-deliveries :
      (n : ℕ) (mail : ℕ → MessageTool) (turns : List Turn) (g : GroupDb) (last : ℤ) (s : Store)
      → IsFeeding p n g last s
      → IsServable l read_message boundary p.peer_tor_id mail s
      → length (pending last s.articles.rows) ≤ length turns
      → All (λ t. goes_on t.command ≡ true) turns
      → (worker l c read_message remove_peer my_key boundary post turns p s).0
        ≡ deliveries l boundary p.peer_tor_id mail s (pending last s.articles.rows)
  worker-deliveries n mail turns g last s feeding servable enough commands =
      ap (λ (x : List Bytes × Store). x.0) (worker-rounds turns s commands)
      ∙ rounds-deliveries l c read_message remove_peer boundary post p n mail (length turns) g last
          s feeding servable enough
