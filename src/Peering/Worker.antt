-- ===== src/Peering/Worker.antt =====
-- The worker of a peer, `Peer.Worker` of internal/peering/peering.go.
pub mod Delivering
use kothawoc.Prelude.{Bytes, Bool, Option, List, [], ◌∷◌, if◌then◌else◌}
use kothawoc.Serror.{Error}
use kothawoc.Header.{Header}
use kothawoc.Keytool.{Crypto, EasyEdKey}
use kothawoc.Databases.State.{Store}
use kothawoc.Databases.Monad.{Db}
use kothawoc.Messages
use kothawoc.Messages.{Reply}
use kothawoc.Messages.Mime.{Library}
use kothawoc.Peering.{Peer, Sent, send_messages}
use kothawoc.Peering.Manager.{
  PeerCommand, Linked, linked, panic, connect, remove, exit, refresh, distribute, sendme,
  connect_peer, take_sendme,
}

-- What a dial takes from its surroundings: the random bytes of the handshake, what the other side sends,
-- `none` where the dial fails, and whether it then greets as a news server.
pub record Dial : Type 0 where
  pub random : Bytes
  pub dialled : Option (Bytes × Bool)

-- After a reply of the databases the worker goes on with the same peer.
abbrev going_on : Peer → Reply × Store → Linked × Store
going_on p (Messages.returned _, s) = (linked p, s)
going_on p (Messages.panic, s) = (panic, s)

-- One message of the channel, with what the dials of its round take.
pub record Turn : Type 0 where
  pub command : PeerCommand
  pub first : Dial
  pub second : Dial

module _ (l : Library) (c : Crypto) (read_message : Bytes → Option (Header × Bytes))
    (remove_peer : Bytes → Db (Unit {0})) (my_key : EasyEdKey) where
  -- The switch on the command, whose goroutine runs to its end here. The case of Distribute returns at
  -- once; `Conn` is not set to nil when it is closed, and a nil one panics.
  unfoldable pub obey : Dial → PeerCommand → Peer → Store → Linked × Store
  unfolding connect_peer take_sendme
  obey dial connect p s = (connect_peer c my_key dial.random dial.dialled p, s)
  obey dial (distribute _) p s = (linked p, s)
  obey dial exit p s = (if p.connected then linked p else panic, s)
  obey dial (sendme list options) p s =
      going_on p (take_sendme c read_message remove_peer my_key p list options s)
  obey dial remove p s = (linked p, s)
  obey dial refresh p s = (linked p, s)

  -- A round: the switch, `Connect`, and `SendMessages`; the text that is posted, and the peer.
  unfoldable pub worker_round :
      Bytes
      → (Bytes → Option Error)
      → Dial
      → Dial
      → PeerCommand
      → Peer
      → Store
      → (Linked × Sent) × Store
  unfolding obey connect_peer send_messages
  worker_round boundary post dial dial' cmd p s =
      let (r, s1) = obey dial cmd p s in
      elim r [
        | panic ↦ ((panic, Sent.panic), s1)
        | linked p1 ↦ elim (connect_peer c my_key dial'.random dial'.dialled p1) [
          | panic ↦ ((panic, Sent.panic), s1)
          | linked p2 ↦
              let (sent, s2) = send_messages l c read_message remove_peer boundary post p2 s1 in
              ((linked p2, sent), s2)
        ]
      ]

  -- The loop over the channel: the texts that are posted; a panic ends it.
  unfoldable pub worker :
      Bytes → (Bytes → Option Error) → List Turn → Peer → Store → List Bytes × Store
  unfolding worker_round
  worker boundary post [] p s = ([], s)
  worker boundary post (t ∷ turns) p s =
      let (out, s') = worker_round boundary post t.first t.second t.command p s in
      elim out.0 [
        | panic ↦ ([], s')
        | linked p' ↦
            let (texts, s'') = worker boundary post turns p' s' in
            elim out.1 [
              | Sent.silent ↦ (texts, s'')
              | Sent.posted text ↦ (text ∷ texts, s'')
              | Sent.panic ↦ ([], s')
            ]
      ]
