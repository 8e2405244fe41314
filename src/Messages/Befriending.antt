-- ===== src/Messages/Befriending.antt =====
-- From `CreatePeerGroup` to `AddPeer`: what a node makes of the message that its user sends.
use kothawoc.Prelude.{
  ℕ, Bytes, codes, beq, true, false, Option, none, some, List, [], ◌∷◌, ◌++◌, ◌≡◌, ◌≢◌, ◌<◌, length,
  All-append, refl, ap, ◌∙◌, arith, append_assoc,
}
use kothawoc.Text.{has_prefix, split, split_from, split_on, join}
use kothawoc.Text.Laws.{Lacks, split-part, split-part_sep}
use kothawoc.Header.{Header, get}
use kothawoc.Databases.Groups.{permitted}
use kothawoc.Messages.{Callbacks, returned, check_control, traced, scan, describe}
use kothawoc.Messages.Mime.{Library}
use kothawoc.Messages.Tool.{MessageTool, sign}
use kothawoc.Messages.Control.{newgroup_peer}
use kothawoc.Messages.Create.{
  Field, Stamp, create_peer_group, create_news_group_mail, peer_card, retraced, newsgroup_tool,
  name_in, part, group_parts, info_text, mod_str, control_header,
}
use kothawoc.Messages.Described.{describe_flag}
use kothawoc.Keytool
use kothawoc.Keytool.{Crypto, EasyEdKey, tor_id}

-- The separator `p.` is not where a shorter run without a dot ends.
has_prefix-shorter :
    (p q r : Bytes)
    → Lacks 46 p
    → length q < length p
    → has_prefix (p ++ (46 ∷ [])) (q ++ (46 ∷ r)) ≡ false
unfolding has_prefix
has_prefix-shorter [] q r h less = ground (arith, less)
has_prefix-shorter (c ∷ p) [] r h less = ground (arith, h.0)
has_prefix-shorter (c ∷ p) (d ∷ q) r h less =
    ground (arith, has_prefix-shorter p q r h.1 (omega (arith, less)))

has_prefix-Lacks : (p r : Bytes) → Lacks 46 r → has_prefix (p ++ (46 ∷ [])) r ≡ false
unfolding has_prefix
has_prefix-Lacks [] [] h = refl
has_prefix-Lacks [] (d ∷ r) h = ground (arith, h.0)
has_prefix-Lacks (c ∷ p) [] h = refl
has_prefix-Lacks (c ∷ p) (d ∷ r) h = ground (arith, has_prefix-Lacks p r h.1)

split_from-Lacks : (p r : Bytes) → Lacks 46 r → split_from 0 (p ++ (46 ∷ [])) r ≡ r ∷ []
unfolding split_from
split_from-Lacks p [] h = refl
split_from-Lacks p (d ∷ r) h =
    ground (arith, has_prefix-Lacks p (d ∷ r) h, split_from-Lacks p r h.1)

split_from-shorter :
    (p q r : Bytes)
    → Lacks 46 p
    → Lacks 46 r
    → length q < length p
    → split_from 0 (p ++ (46 ∷ [])) (q ++ (46 ∷ r)) ≡ (q ++ (46 ∷ r)) ∷ []
unfolding split_from
split_from-shorter p [] r hp hr less =
    ground (arith, has_prefix-shorter p [] r hp less, split_from-Lacks p r hr)
split_from-shorter p (d ∷ q) r hp hr less = ground (
  arith,
  has_prefix-shorter p (d ∷ q) r hp less,
  split_from-shorter p q r hp hr (omega (arith, less)),
)

split_from-skip : (sep u t : Bytes) → split_from (length u) sep (u ++ t) ≡ split_from 0 sep t
unfolding split_from
split_from-skip sep [] t = refl
split_from-skip sep (c ∷ u) t = split_from-skip sep u t

has_prefix_self : (p s : Bytes) → has_prefix p (p ++ s) ≡ true
unfolding has_prefix
has_prefix_self [] s = refl
has_prefix_self (c ∷ p) s = ground (arith, has_prefix_self p s)

-- A text that begins with the separator.
split_on-start :
    (c : ℕ) (u t : Bytes) → split_on (c ∷ u) ((c ∷ u) ++ t) ≡ [] ∷ split_from 0 (c ∷ u) t
unfolding split_on split_from
split_on-start c u t = ground (arith, has_prefix_self (c ∷ u) t, split_from-skip (c ∷ u) u t)

-- What `CreatePeerGroup` gives to `Sign`, for an owner, a peer and an encoded card.
abbrev pub request :
    Library
    → Crypto
    → (List Field → Option Bytes)
    → (List Field → List Field)
    → Bytes
    → Bytes
    → Stamp
    → Bytes
    → Bytes
    → Bytes
    → MessageTool
request l c encode_card to_v4 nickname language stamp card owner peer =
    newsgroup_tool l c encode_card to_v4 nickname language owner stamp
      (owner ++ (codes ".peers." ++ peer)) (codes "peer group")
      (part (codes "text/x-vcard;charset=UTF-8") card ∷ []) permitted

create_peer_group-request :
    (l : Library) (c : Crypto) (encode_card : List Field → Option Bytes)
    (to_v4 : List Field → List Field) (nickname language : Bytes) (stamp : Stamp)
    (card owner peer : Bytes) (my_key : EasyEdKey) (lang myname : Bytes)
    → tor_id c my_key ≡ Keytool.ok owner
    → encode_card (peer_card l c encode_card to_v4 nickname language lang myname peer) ≡ some card
    → create_peer_group l c encode_card to_v4 nickname language my_key stamp lang myname peer
      ≡ retraced l c encode_card to_v4 nickname language
          (sign l c my_key stamp.random stamp.random'
            (request l c encode_card to_v4 nickname language stamp card owner peer)).0
unfolding create_peer_group create_news_group_mail
create_peer_group-request l c encode_card to_v4 nickname language stamp card owner peer my_key lang
      myname mine encoded =
    rw (create_peer_group, mine, create_news_group_mail, encoded, mine) refl

split_on-group :
    (owner peer : Bytes)
    → Lacks 46 owner
    → Lacks 46 peer
    → 5 < length owner
    → split_on (owner ++ (46 ∷ [])) (owner ++ (codes ".peers." ++ peer))
      ≡ [] ∷ ((codes "peers." ++ peer) ∷ [])
split_on-group [] peer h h' long = absurd (omega (arith, long))
split_on-group (c ∷ u) peer h h' long = ground (
  arith,
  append_assoc (c ∷ u) (46 ∷ []) (codes "peers." ++ peer),
  split_on-start c (u ++ (46 ∷ [])) (codes "peers." ++ peer),
  split_from-shorter (c ∷ u) (codes "peers") peer h h' long,
)

module _ (owner peer : Bytes) (dotless : Lacks 46 owner) (dotless' : Lacks 46 peer)
    (long : 5 < length owner) where
  abbrev name : Bytes
  name = owner ++ (codes ".peers." ++ peer)

  split_on-name : split_on (owner ++ (46 ∷ [])) name ≡ [] ∷ ((codes "peers." ++ peer) ∷ [])
  split_on-name = split_on-group owner peer dotless dotless' long

  name_in-peers : name_in owner name ≡ codes "peers." ++ peer
  unfolding name_in
  name_in-peers = ground (arith, split_on-name)

  module _ (spaceless : Lacks 32 owner) (spaceless' : Lacks 32 peer) (lineless : Lacks 10 owner)
      (lineless' : Lacks 10 peer) where
    dots : split 46 name ≡ owner ∷ (codes "peers" ∷ (peer ∷ []))
    dots =
        split-part_sep 46 owner (codes "peers." ++ peer) dotless
        ∙ ap (λ (r : List Bytes). owner ∷ r)
            (split-part_sep 46 (codes "peers") peer (ground arith)
              ∙ ap (λ (r : List Bytes). codes "peers" ∷ r) (split-part 46 peer dotless'))

    Lacks-name : (b : ℕ) → Lacks b (codes ".peers.") → Lacks b owner → Lacks b peer → Lacks b name
    Lacks-name b dots' h h' =
        All-append (λ x. x ≢ b) owner (codes ".peers." ++ peer) h
          (All-append (λ x. x ≢ b) (codes ".peers.") peer dots' h')

    words_of :
        split 32 (codes "newgroup " ++ (name ++ codes " moderated"))
        ≡ codes "newgroup" ∷ (name ∷ (codes "moderated" ∷ []))
    words_of =
        split-part_sep 32 (codes "newgroup") (name ++ codes " moderated") (ground arith)
        ∙ ap (λ (r : List Bytes). codes "newgroup" ∷ r)
            (split-part_sep 32 name (codes "moderated")
                (Lacks-name 32 (ground arith) spaceless spaceless')
              ∙ ap (λ (r : List Bytes). name ∷ r)
                  (split-part 32 (codes "moderated") (ground arith)))

    module _ (l : Library) (c : Crypto) (encode_card : List Field → Option Bytes)
        (to_v4 : List Field → List Field) (nickname language : Bytes) (stamp : Stamp)
        (card : Bytes) where
      abbrev tool : MessageTool
      tool = request l c encode_card to_v4 nickname language stamp card owner peer

      control_of :
          get tool.article.header (codes "Control")
          ≡ codes "newgroup " ++ (name ++ codes " moderated")
      unfolding newsgroup_tool control_header get kothawoc.Dict.lookup beq kothawoc.Header.canonical
      control_of = ground (arith, name_in-peers)

      described :
          describe 1 (info_text name (codes "peer group") (mod_str permitted))
          ≡ some (codes "group")
      unfolding join
      described =
          describe_flag name (codes "peer group") (codes "peer") (codes "group" ∷ [])
            (Lacks-name 10 (ground arith) lineless lineless')
            (Lacks-name 32 (ground arith) spaceless spaceless') (ground arith)
            (unfold split in refl)

      parts_of :
          tool.parts
          ≡ group_parts name (codes "peer group") (mod_str permitted)
            ++ (part (codes "text/x-vcard;charset=UTF-8") card ∷ [])
      unfolding newsgroup_tool
      parts_of = rw name_in-peers refl

      module _ {S Card : Type 0} (decode_card : Bytes → Card) (cmf : Callbacks S Card) where
        scanned :
            scan decode_card 1 tool.parts [] none ≡ some (codes "group", some (decode_card card))
        unfolding scan group_parts get kothawoc.Dict.lookup beq kothawoc.Header.canonical
        scanned = ground (arith, parts_of, described)

        peer_group_made :
            (header : Header) (s s1 : S)
            → get header (codes "Control") ≡ get tool.article.header (codes "Control")
            → get header (codes "From") ≡ owner
            → cmf.new_group name (codes "group") (some (decode_card card)) s ≡ (returned none, s1)
            → check_control decode_card cmf owner header tool.parts s
              ≡ (traced 127 (cmf.add_peer peer s1).0, (cmf.add_peer peer s1).1)
        peer_group_made header s s1 control from made =
            newgroup_peer decode_card cmf owner header tool.parts s name peer (codes "group")
              (codes "moderated" ∷ []) (some (decode_card card)) s1
              (λ e. ground (arith, e, control, control_of))
              (ap (split 32) (control ∙ control_of) ∙ words_of) dots from scanned made

        -- `CreatePeerGroup` of a key whose identifier is the owner's, with a card that can be encoded, is what
        -- `Sign` writes of one message; and a node that reads the field Control and the parts of that message,
        -- from the owner and with whatever else in the header, makes the group `owner.peers.peer` with the
        -- encoded card, and then adds the peer to what that leaves; of the description `peer group` the second
        -- word is left. The identifiers hold no dot, space or line end, the owner's has more than five bytes,
        -- and the group is made.
        pub create_peer_group-add_peer :
            (my_key : EasyEdKey) (lang myname : Bytes) (header : Header) (s s1 : S)
            → tor_id c my_key ≡ Keytool.ok owner
            → encode_card (peer_card l c encode_card to_v4 nickname language lang myname peer)
              ≡ some card
            → get header (codes "Control") ≡ get tool.article.header (codes "Control")
            → get header (codes "From") ≡ owner
            → cmf.new_group name (codes "group") (some (decode_card card)) s ≡ (returned none, s1)
            → (create_peer_group l c encode_card to_v4 nickname language my_key stamp lang myname
                  peer
                ≡ retraced l c encode_card to_v4 nickname language
                    (sign l c my_key stamp.random stamp.random' tool).0)
              × (check_control decode_card cmf owner header tool.parts s
                  ≡ (traced 127 (cmf.add_peer peer s1).0, (cmf.add_peer peer s1).1))
        create_peer_group-add_peer my_key lang myname header s s1 mine encoded control from made = (
          create_peer_group-request l c encode_card to_v4 nickname language stamp card owner peer
              my_key lang myname mine encoded,
          peer_group_made header s s1 control from made,
        )
