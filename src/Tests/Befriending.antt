-- ===== src/Tests/Befriending.antt =====
-- The user of the node `abcdef` adds the peer `xyz`.
use kothawoc.Prelude.{Bytes, codes, Option, none, some, List, [], ◌∷◌, ◌++◌, ◌≡◌, refl, arith}
use kothawoc.Header.{Header}
use kothawoc.Messages.{Callbacks, returned, check_control}
use kothawoc.Keytool.{Crypto, EasyEdKey, empty_key, tor_public}
use kothawoc.Messages.Create.{Stamp, create_peer_group, retraced}
use kothawoc.Messages.Tool.{MessageTool, sign}
use kothawoc.Messages.Befriending.{request, create_peer_group-add_peer}
use kothawoc.Tests.Control.{counting, as_card, from_to}
use kothawoc.Tests.Messages.{plain}
use kothawoc.Tests.Handshake.{sealing}

abbrev today : Stamp
today = record { id = codes "<1@abcdef>"; date = codes "today"; random = []; random' = [] }

-- The key of `abcdef`, where a public key is its own identifier.
abbrev plainly : Crypto
plainly = record sealing { v3_onion_id = λ p. p }

abbrev own_key : EasyEdKey
own_key = record empty_key { tor_pub_key = codes "abcdef"; key_type = tor_public }

abbrev asked : MessageTool
asked =
    request plain plainly (λ fs. some (codes "card")) (λ fs. fs) (codes "N") (codes "L") today
      (codes "card") (codes "abcdef") (codes "xyz")

create_peer_group-add_peer_example :
    (create_peer_group plain plainly
        (λ fs. some (codes "card"))
        (λ fs. fs)
        (codes "N")
        (codes "L")
        own_key
        today
        (codes "en")
        (codes "me")
        (codes "xyz")
      ≡ retraced plain plainly
          (λ fs. some (codes "card"))
          (λ fs. fs)
          (codes "N")
          (codes "L")
          (sign plain plainly own_key [] [] asked).0)
    × (check_control as_card counting
          (codes "abcdef")
          (from_to (codes "abcdef") (codes "newgroup abcdef.peers.xyz moderated"))
          asked.parts
          []
        ≡ (returned none, codes "xyz" ∷ codes "abcdef.peers.xyz" ∷ []))
unfolding kothawoc.Messages.Create.newsgroup_tool kothawoc.Header.get kothawoc.Dict.lookup
    kothawoc.Prelude.beq kothawoc.Header.canonical kothawoc.Serror.new kothawoc.Keytool.tor_id
create_peer_group-add_peer_example =
    create_peer_group-add_peer (codes "abcdef") (codes "xyz") (ground arith) (ground arith)
      (omega arith) (ground arith) (ground arith) (ground arith) (ground arith) plain plainly
      (λ fs. some (codes "card")) (λ fs. fs) (codes "N") (codes "L") today (codes "card") as_card
      counting own_key (codes "en") (codes "me")
      (from_to (codes "abcdef") (codes "newgroup abcdef.peers.xyz moderated")) []
      (codes "abcdef.peers.xyz" ∷ []) refl refl refl refl refl
