-- ===== src/Messages/Control.antt =====
-- Which control messages are acted upon.
use kothawoc.Prelude.{
  Bytes, codes, beq, beq_iff, beq_self, Option, none, some, List, [], ◌∷◌, ◌++◌, ◌≡◌, ◌≢◌, arith,
}
use kothawoc.Text.{split}
use kothawoc.Text.Laws.{split-part_sep}
use kothawoc.Header.{Header, get}
use kothawoc.Messages.{
  MimePart, Callbacks, returned, check_control, dispatch, make_group, add_peer_of, scan, owner,
  flags, traced,
}

module _ {S Card : Type 0} (decode_card : Bytes → Card) (cmf : Callbacks S Card) (id : Bytes)
    (header : Header) (parts : List MimePart) (s : S) where
  -- A newgroup message from anyone but the node that the group's name begins with calls nothing and is
  -- no error.
  pub newgroup_other :
      (name : Bytes) (args : List Bytes)
      → get header (codes "Control") ≢ []
      → split b' ' (get header (codes "Control")) ≡ codes "newgroup" ∷ name ∷ args
      → get header (codes "From") ≢ owner name
      → check_control decode_card cmf id header parts s ≡ (returned none, s)
  unfolding check_control dispatch beq
  newgroup_other name args some_text words other = ground (
    arith,
    beq_iff (get header (codes "Control")) [],
    beq_iff (get header (codes "From")) (owner name),
  )

  -- A newgroup message from the node that the session is for, for a group with which it peers, makes the
  -- group and then adds the peer to what that leaves, when the parts are well formed and the group is
  -- made; only an error of `AddPeer` is reported.
  pub newgroup_peer :
      (name peer description : Bytes) (args : List Bytes) (card : Option Card) (s1 : S)
      → get header (codes "Control") ≢ []
      → split b' ' (get header (codes "Control")) ≡ codes "newgroup" ∷ name ∷ args
      → split b'.' name ≡ id ∷ codes "peers" ∷ peer ∷ []
      → get header (codes "From") ≡ id
      → scan decode_card (flags (name ∷ args)) parts [] none ≡ some (description, card)
      → cmf.new_group name description card s ≡ (returned none, s1)
      → check_control decode_card cmf id header parts s
        ≡ (traced 127 (cmf.add_peer peer s1).0, (cmf.add_peer peer s1).1)
  unfolding check_control dispatch beq make_group add_peer_of owner
  newgroup_peer name peer description args card s1 some_text words dots mine scanned made = ground (
    arith,
    beq_iff (get header (codes "Control")) [],
    beq_iff (get header (codes "From")) id,
    beq_self id,
  )

  -- The control message that `CreateSendme` writes calls nothing: its first word is not sendme.
  pub created_sendme_ignored :
      (peer : Bytes)
      → get header (codes "Control") ≡ codes "semdme" ++ (32 ∷ peer)
      → check_control decode_card cmf id header parts s ≡ (returned none, s)
  unfolding check_control dispatch beq
  created_sendme_ignored peer control =
      ground (arith, control, split-part_sep 32 (codes "semdme") peer (ground arith))
