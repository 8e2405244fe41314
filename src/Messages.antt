-- ===== src/Messages.antt =====
-- `CheckControl` of pkg/messages/control.go: what a node does on a control message.
pub mod Control
pub mod Mime
pub mod Tool
pub mod Body
pub mod Signed
pub mod Signing
pub mod Forging
pub mod Parsing
pub mod Keeps
pub mod Create
pub mod Described
pub mod Delivery
pub mod Befriending
use kothawoc.Prelude.{
  ℕ, Bytes, codes, beq, Bool, true, false, ◌&&◌, Option, none, some, List, [], ◌∷◌, ◌-◌, ltb,
  length, take, drop, get_elem?, if◌then◌else◌, ◌==◌,
}
use kothawoc.Serror.{Error, Caller, new}
use kothawoc.Text.{split, join}
use kothawoc.Header.{Header, get}

-- `MimePart`
pub record MimePart : Type 0 where
  pub header : Header
  pub content : Bytes

-- What `CheckControl` or a function of its argument `cmf` returns, or its panic; `none` is a nil error.
pub data Reply : Type 0 where
  returned : Option Error → Reply
  panic : Reply

-- `ControMesasgeFunctions` over a state. A nil card is `none`.
pub record Callbacks (S Card : Type 0) : Type 0 where
  pub new_group : Bytes → Bytes → Option Card → S → Reply × S
  pub add_peer : Bytes → S → Reply × S
  pub cancel : Bytes → Bytes → Bytes → S → Reply × S
  pub sendme : Bytes → Bytes → Bytes → S → Reply × S

abbrev pub site : ℕ → Caller
site line = record { runtime_name = "CheckControl"; function = "control.go"; line = line }

-- `return serr.New(err)`
abbrev pub traced : ℕ → Reply → Reply
traced line (returned e) = returned (new (site line) e)
traced line panic = panic

abbrev content_type : MimePart → Bytes
content_type p = get p.header (codes "Content-Type")

abbrev is_groupinfo : MimePart → Bool
is_groupinfo p = beq (content_type p) (codes "application/news-groupinfo;charset=UTF-8")

-- `data[2 : len(data)-flaglen]`; `none` where the bounds cross, and it panics.
unfoldable pub words : ℕ → List Bytes → Option Bytes
words flaglen ws =
    if ltb (length ws - flaglen) 2
    then none
    else some (join (codes " ") (drop 2 (take (length ws - flaglen) ws)))

-- The description on the second line of a part; `none` where there is no such line.
unfoldable pub describe : ℕ → Bytes → Option Bytes
unfolding words
describe flaglen content = elim (get_elem? (split 10 content) 1) [
  | none ↦ none
  | some l ↦ words flaglen (split b' ' l)
]

-- What the group's name begins with.
unfoldable pub owner : Bytes → Bytes
owner name = elim (split b'.' name) [ [] ↦ [] | p ∷ _ ↦ p ]

-- Is there a word after the group's name?
abbrev pub flags : List Bytes → ℕ
flags (_ ∷ (_ ∷ [])) = 1
flags _ = 0

-- The last part with a list of groups.
unfoldable pub group_list : List MimePart → Bytes → Bytes
group_list [] l = l
group_list (h ∷ parts) l = group_list parts (if is_groupinfo h then h.content else l)

-- The last part with options.
unfoldable pub options : List MimePart → Bytes → Bytes
options [] l = l
options (h ∷ parts) l =
    options parts
      (if beq (content_type h) (codes "application/newsfeed;charset=UTF-8") then h.content else l)

module _ {Card : Type 0} (decode_card : Bytes → Card) where
  -- The loop over the parts of a newgroup message: the last description and the last card count.
  unfoldable pub scan : ℕ → List MimePart → Bytes → Option Card → Option (Bytes × Option Card)
  unfolding describe
  scan flaglen [] description card = some (description, card)
  scan flaglen (h ∷ parts) description card =
      if is_groupinfo h
      then elim (describe flaglen h.content) [ none ↦ none | some d ↦ scan flaglen parts d card ]
      else if beq (content_type h) (codes "text/x-vcard;charset=UTF-8")
      then scan flaglen parts description (some (decode_card h.content))
      else scan flaglen parts description card

module _ {S Card : Type 0} where
  -- `AddPeer`, where the group is the node's own group for a peer.
  unfoldable pub add_peer_of : Callbacks S Card → Bytes → List Bytes → S → Reply × S
  add_peer_of cmf id (owner ∷ (second ∷ (peer ∷ []))) s =
      if beq owner id && beq second (codes "peers")
      then (let (r, s') = cmf.add_peer peer s in (traced 127 r, s'))
      else (returned none, s)
  add_peer_of cmf id _ s = (returned none, s)

module _ {S Card : Type 0} (decode_card : Bytes → Card) where
  -- The case of newgroup, once the owner is known to have sent it.
  unfoldable pub make_group : Callbacks S Card → Bytes → List MimePart → ℕ → Bytes → S → Reply × S
  unfolding scan add_peer_of
  make_group cmf id parts flaglen name s = elim (scan decode_card flaglen parts [] none) [
    | none ↦ (panic, s)
    | some (description, card) ↦
        let (r, s') = cmf.new_group name description card s in
        elim r [
          | panic ↦ (panic, s')
          | returned e ↦ elim e [
            | some x ↦ (returned (new (site 118) (some x)), s')
            | none ↦ add_peer_of cmf id (split b'.' name) s'
          ]
        ]
  ]

  -- The switch on the first word of the Control header; a second word that is not there panics.
  unfoldable pub dispatch :
      Callbacks S Card → Bytes → Header → List MimePart → List Bytes → S → Reply × S
  unfolding make_group owner group_list options
  dispatch cmf id header parts [] s = (panic, s)
  dispatch cmf id header parts (word ∷ args) s =
      let from : Bytes = get header (codes "From") in
      if beq word (codes "cancel")
      then elim args [
        | [] ↦ (panic, s)
        | target ∷ _ ↦
            let (r, s') = cmf.cancel from target (get header (codes "Newsgroups")) s in
            (traced 85 r, s')
      ]
      else if beq word (codes "newgroup")
      then elim args [
        | [] ↦ (panic, s)
        | name ∷ more ↦
            if beq from (owner name)
            then make_group cmf id parts (flags (name ∷ more)) name s
            else (returned none, s)
      ]
      else if beq word (codes "sendme")
      then (let (r, s') = cmf.sendme from (group_list parts []) (options parts []) s in
          (traced 166 r, s'))
      else (returned none, s)

  -- `CheckControl` in a session whose `Id` is `id`.
  unfoldable pub check_control : Callbacks S Card → Bytes → Header → List MimePart → S → Reply × S
  unfolding dispatch
  check_control cmf id header parts s =
      let control : Bytes = get header (codes "Control") in
      if beq control []
      then (returned none, s)
      else dispatch cmf id header parts (split b' ' control) s
