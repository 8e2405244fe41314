-- ===== src/Messages/Create.antt =====
-- The control messages that pkg/messages/control.go writes.
use kothawoc.Prelude.{Bytes, codes, Bool, Option, none, some, List, [], ◌∷◌, ◌++◌, if◌then◌else◌}
use kothawoc.Serror.{sentinel, serror, io_error}
use kothawoc.Dict.{Dict}
use kothawoc.Text.{split_on, join}
use kothawoc.Header.{Header}
use kothawoc.Keytool
use kothawoc.Keytool.{Crypto, EasyEdKey, Result, tor_id}
use kothawoc.Databases.Groups.{Posting, permitted, not_permitted, moderated}
use kothawoc.Messages.{MimePart}
use kothawoc.Messages.Mime.{Library, line_end}
use kothawoc.Messages.Tool.{MessageTool, Written, err, sign}

-- `vcard.Field`, with the key under which the card holds it.
pub record Field : Type 0 where
  pub key : Bytes
  pub value : Bytes
  pub params : Dict (List Bytes)

-- What a call takes from its surroundings: `GenID`, the date, and the boundaries of the two writers.
pub record Stamp : Type 0 where
  pub id : Bytes
  pub date : Bytes
  pub random : Bytes
  pub random' : Bytes

abbrev or_empty : Result Bytes → Bytes
or_empty (Keytool.ok b) = b
or_empty (Keytool.err _) = []

abbrev pub part : Bytes → Bytes → MimePart
part kind content = record { header = (codes "Content-Type", kind ∷ []) ∷ []; content = content }

abbrev pub groupinfo : Bytes
groupinfo = codes "application/news-groupinfo;charset=UTF-8"

abbrev plain_text : Bytes
plain_text = codes "text/plain;charset=UTF-8"

abbrev checkgroups : Bytes
checkgroups = codes "application/news-checkgroups;charset=UTF-8"

-- `modStr`
abbrev pub mod_str : Posting → Bytes
mod_str permitted = codes " moderated"
mod_str not_permitted = []
mod_str moderated = []

-- The name behind the owner's identifier: what `strings.Split` puts second, or the whole name.
unfoldable pub name_in : Bytes → Bytes → Bytes
unfolding split_on
name_in owner fullname = elim (split_on (owner ++ (b'.' ∷ [])) fullname) [
  | [] ↦ fullname
  | first ∷ more ↦ elim more [ [] ↦ first | second ∷ _ ↦ second ]
]

-- The content of the part with the group's description.
unfoldable pub info_text : Bytes → Bytes → Bytes → Bytes
info_text group description mode =
    codes "For your newsgroups file:" ++ (line_end ++ (group ++ (32 ∷ (description ++ mode))))

-- The parts, without a card.
unfoldable pub group_parts : Bytes → Bytes → Bytes → List MimePart
unfolding info_text
group_parts group description mode =
    part groupinfo (info_text group description mode)
    ∷ part plain_text (
        codes "This is a system control message to create the news group "
        ++ (group ++ (b'.' ∷ line_end)))
    ∷ []

-- The header of a control message.
unfoldable pub control_header : Bytes → Bytes → Bytes → Stamp → Header
control_header subject control newsgroups stamp =
    (codes "Subject", subject ∷ [])
    ∷ (codes "Control", control ∷ [])
    ∷ (codes "Message-Id", stamp.id ∷ [])
    ∷ (codes "Date", stamp.date ∷ [])
    ∷ (codes "Newsgroups", newsgroups ∷ [])
    ∷ (codes "Content-Type", codes "multipart/mixed; boundary=\"nxtprt\"" ∷ [])
    ∷ (codes "Content-Transfer-Encoding", codes "8bit" ∷ [])
    ∷ []

abbrev pub control_tool : Header → List MimePart → MessageTool
control_tool header parts = record {
  parts = parts;
  preamble = codes "This is a MIME control message.";
  article = record { header = header; body = []; bytes = 0; lines = 0 };
}

-- The lines of the list of groups.
unfoldable pub group_lines : List (Bytes × Bytes) → Bytes
group_lines [] = []
group_lines ((name, description) ∷ groups) =
    name ++ (9 ∷ (description ++ (line_end ++ group_lines groups)))

-- `encode_card` is the encoder of go-vcard, `none` for its error, `to_v4` its `ToV4`, and `nickname` and
-- `language` are its constants `FieldNickname` and `FieldLanguage`.
module _ (l : Library) (c : Crypto) (encode_card : List Field → Option Bytes)
    (to_v4 : List Field → List Field) (nickname language : Bytes) where
  -- The message tool of `CreateNewsGroupMail`, with the parts for a card.
  unfoldable pub newsgroup_tool :
      Bytes → Stamp → Bytes → Bytes → List MimePart → Posting → MessageTool
  unfolding name_in group_parts control_header
  newsgroup_tool owner stamp fullname description card posting =
      let group : Bytes = owner ++ (b'.' ∷ name_in owner fullname) in
      control_tool
        (control_header (codes "cmsg newgroup " ++ (group ++ mod_str posting))
          (codes "newgroup " ++ (group ++ mod_str posting)) group stamp)
        (group_parts group description (mod_str posting) ++ card)

  -- `CreateNewsGroupMail`; a nil card is `none`.
  unfoldable pub create_news_group_mail :
      EasyEdKey → Stamp → Bytes → Bytes → Option (List Field) → Posting → Written
  unfolding newsgroup_tool sign
  create_news_group_mail my_key stamp fullname description card posting =
      let owner : Bytes = or_empty (tor_id c my_key) in
      let written : List MimePart → Written = λ (more : List MimePart).
        (sign l c my_key stamp.random stamp.random'
          (newsgroup_tool owner stamp fullname description more posting)).0 in
      elim card [
        | none ↦ written []
        | some fields ↦ elim (encode_card fields) [
          | none ↦ err (sentinel io_error)
          | some text ↦ written (part (codes "text/x-vcard;charset=UTF-8") text ∷ [])
        ]
      ]

  -- The card of `CreatePeerGroup`.
  unfoldable pub peer_card : Bytes → Bytes → Bytes → List Field
  peer_card lang myname peer_id = to_v4 (
      record { key = nickname; value = myname; params = [] }
      ∷ record { key = language; value = lang; params = [] }
      ∷ record { key = codes "X-KW-PERMS"; value = codes "group"; params = [] }
      ∷ record {
        key = codes "X-KW-PERMS";
        value = peer_id;
        params =
            (codes "read", codes "true" ∷ [])
            ∷ (codes "reply", codes "true" ∷ [])
            ∷ (codes "post", codes "true" ∷ [])
            ∷ [];
      }
      ∷ [])

  -- `serr.New` of the error.
  abbrev pub retraced : Written → Written
  retraced (Written.ok text) = Written.ok text
  retraced (err e) =
      err (
        serror (record { runtime_name = "CreatePeerGroup"; function = "control.go"; line = 284 }) e)
  retraced Written.panic = Written.panic

  -- `CreatePeerGroup`
  unfoldable pub create_peer_group : EasyEdKey → Stamp → Bytes → Bytes → Bytes → Written
  unfolding create_news_group_mail peer_card
  create_peer_group my_key stamp lang myname peer_id = elim (tor_id c my_key) [
    | Keytool.err e ↦ err (
        serror (record { runtime_name = "CreatePeerGroup"; function = "control.go"; line = 277 }) e)
    | Keytool.ok my_id ↦ retraced (
        create_news_group_mail my_key stamp (my_id ++ (codes ".peers." ++ peer_id))
          (codes "peer group") (some (peer_card lang myname peer_id)) permitted)
  ]

  -- `CreateCheckgroups`
  unfoldable pub create_checkgroups : EasyEdKey → Stamp → Bytes → List (Bytes × Bytes) → Written
  unfolding group_lines control_header sign
  create_checkgroups my_key stamp peer_id newsgroups =
      let owner : Bytes = or_empty (tor_id c my_key) in
      (sign l c my_key stamp.random stamp.random' (
        control_tool
          (control_header (codes "cmsg checkgroups " ++ peer_id) (codes "checkgroups " ++ peer_id)
            (peer_id ++ (b'.' ∷ owner)) stamp)
          (part checkgroups (group_lines newsgroups)
            ∷ part plain_text (
                codes "This is a system control message to checkgroups from "
                ++ (owner ++ (b'.' ∷ line_end)))
            ∷ []))).0

  -- The message tool of `CreateSendme`.
  unfoldable pub sendme_tool : Bytes → Stamp → Bytes → List Bytes → Bool → List Bytes → MessageTool
  unfolding control_header join
  sendme_tool owner stamp peer_id newsgroups cmsgs feed =
      let flag : Bytes = if cmsgs then codes "true" else codes "false" in
      control_tool
        (control_header (codes "cmsg sendme " ++ peer_id) (codes "semdme " ++ peer_id)
          (peer_id ++ (b'.' ∷ owner)) stamp)
        (part (codes "application/newsfeed;charset=UTF-8") (join line_end newsgroups)
          ∷ part checkgroups (
              codes "ControlMessages: "
              ++ (flag ++ (line_end ++ (codes "Feed: " ++ join (44 ∷ []) feed))))
          ∷ part plain_text (
              codes "This is a system control message to request groups from "
              ++ (owner ++ (b'.' ∷ line_end)))
          ∷ [])

  -- `CreateSendme`
  unfoldable pub create_sendme :
      EasyEdKey → Stamp → Bytes → List Bytes → Bool → List Bytes → Written
  unfolding sendme_tool sign
  create_sendme my_key stamp peer_id newsgroups cmsgs feed =
      (sign l c my_key stamp.random stamp.random'
        (sendme_tool (or_empty (tor_id c my_key)) stamp peer_id newsgroups cmsgs feed)).0
