-- ===== src/Tests/System.antt =====
-- A node that starts on an empty disk, is given a key and a group, and is posted to.
use kothawoc.Prelude.{Bytes, codes, Bool, Option, none, some, List, [], ◌∷◌, ◌≡◌, refl}
use kothawoc.Header.{Header}
use kothawoc.Dict.{lookup}
use kothawoc.Keytool
use kothawoc.Keytool.{empty_key}
use kothawoc.Databases.State.{blob}
use kothawoc.Databases.Server.{Command, serve}
use kothawoc.Databases.Config.{device_key}
use kothawoc.Databases.Peers.{peer_group}
use kothawoc.Databases.Invariant.{IsValid}
use kothawoc.Databases.Invariant.Reachable.{blank}
use kothawoc.Peering.{send_messages}
use kothawoc.Peering.{Peer, Sent}
use kothawoc.Peering.Worker.{Dial}
use kothawoc.Peering.Membership.{peer_of}
use kothawoc.Peering.Manager.{PeerCommand, Node, with_store, add_peer, connect_peer, linked}
use kothawoc.Backend.Posting.{post}
use kothawoc.System.{started, posts, asks, adds, starts, Reached, begin, later}
use kothawoc.System.Valid.{Reached-IsValid}
use kothawoc.System.Files.{IsGenuine, Reached-IsGenuine}
use kothawoc.System.Peers.{IsFed}
use kothawoc.System.Peers.Steps.{Reached-IsFed}
use kothawoc.Tests.Data.{lounge, read_first, ignore_peer}
use kothawoc.Tests.Server.{nothing_lost}
use kothawoc.Tests.Handshake.{sealing, seal, shared}
use kothawoc.Tests.Messages.{plain, message}
use kothawoc.Tests.Backend.{here, quiet, no_card, hello}

abbrev first : Node
first = started 7 (record { store = blank [] []; conns = []; queued = []; workers = [] })

abbrev asked : Command → Node → Node
asked cmd node = with_store (serve sealing read_first ignore_peer cmd node.store).1 node

-- With a key and a group.
abbrev keyed : Node
keyed = asked (Command.config_set device_key (blob (codes "c"))) first

abbrev grouped : Node
grouped = asked (Command.new_group lounge (codes "Lounge") []) keyed

abbrev Seen : Node → Type 0
Seen node = Reached plain sealing read_first ignore_peer no_card empty_key node

grouped-Seen : Seen grouped
grouped-Seen = later (later (later (begin [] []) (starts 7)) (asks _ tt)) (asks _ tt)

Reached-IsValid_example : IsValid grouped.store
Reached-IsValid_example =
    Reached-IsValid plain sealing read_first ignore_peer no_card empty_key nothing_lost grouped
      grouped-Seen

-- A node that is only given a key and a group.
abbrev bare : Node
bare = record { store = blank [] []; conns = []; queued = []; workers = [] }

abbrev small : Node
small =
    asked (Command.new_group lounge (codes "Lounge") [])
      (asked (Command.config_set device_key (blob (codes "c"))) bare)

abbrev spoken : Node
spoken =
    (post plain sealing read_first ignore_peer no_card empty_key quiet here (message hello).article
      small).1

spoken-Seen : Seen spoken
spoken-Seen =
    later (later (later (begin [] []) (asks _ tt)) (asks _ tt))
      (posts quiet here (message hello).article)

abbrev or_empty : Option Bytes → Bytes
or_empty none = []
or_empty (some b) = b

abbrev stored : Bytes
stored = or_empty (lookup seal spoken.store.files)

found : lookup seal spoken.store.files ≡ some stored
unfolding lookup post kothawoc.Prelude.beq kothawoc.Header.get kothawoc.Header.canonical
    kothawoc.Databases.Client.config_get_device_key serve
    kothawoc.Databases.Config.config_get_device_key kothawoc.Databases.Groups.new_group
    kothawoc.Databases.Config.config_set kothawoc.Table.add kothawoc.Dict.open_file
    kothawoc.Databases.Monad.group_exec kothawoc.Dict.write_file kothawoc.Dict.insert
    Keytool.tor_pub_key Keytool.set_tor_private_key Keytool.tor_id Keytool.tor_sign
    kothawoc.Header.set kothawoc.Torutils.Hex.decode_all kothawoc.Torutils.Hex.encode
    kothawoc.Databases.Client.config_get_bytes kothawoc.Messages.check_control kothawoc.Text.split
    kothawoc.Databases.Client.get_perms kothawoc.Databases.Perms.get_perms kothawoc.Text.trim_space
    kothawoc.Databases.Client.get_group_number kothawoc.Databases.Groups.get_group_number
    kothawoc.Messages.Tool.raw_mail kothawoc.Databases.Client.store_article
    kothawoc.Databases.Articles.store_article kothawoc.Databases.Client.add_article_to_group
    kothawoc.Databases.Articles.add_article_to_group kothawoc.Databases.Monad.handle
    kothawoc.Peering.Manager.distribute_article
found = refl

Reached-IsGenuine_example : IsGenuine plain sealing seal stored
Reached-IsGenuine_example =
    Reached-IsGenuine plain sealing read_first ignore_peer no_card empty_key
      (λ id. record { at = λ s h. h }) spoken seal stored spoken-Seen found

-- A node with the group for its one peer, which cannot be dialled.
abbrev befriended : Node
befriended =
    asked (Command.new_group (peer_group shared (codes "xyz")) (codes "Peer") [])
      (asked (Command.config_set device_key (blob (codes "c"))) bare)

abbrev paired : Node
paired = (add_peer sealing read_first ignore_peer empty_key (codes "xyz") befriended).1

paired-Seen : Seen paired
paired-Seen = later (later (later (begin [] []) (asks _ tt)) (asks _ tt)) (adds (codes "xyz"))

Reached-IsFed_example : IsFed plain sealing read_first ignore_peer no_card empty_key paired
Reached-IsFed_example =
    Reached-IsFed plain sealing read_first ignore_peer no_card empty_key
      (λ k id. record { at = λ s h. h }) paired paired-Seen

abbrev silence : Dial
silence = record { random = []; dialled = none }

abbrev xyz : Peer
xyz = peer_of sealing read_first ignore_peer empty_key (codes "xyz")

its_worker : paired.workers ≡ xyz ∷ []
unfolding kothawoc.Peering.new_peer add_peer kothawoc.Prelude.beq Keytool.tor_id
    kothawoc.Databases.Client.add_peer serve kothawoc.Databases.Peers.add_peer
    kothawoc.Databases.Groups.new_group kothawoc.Databases.Config.config_set kothawoc.Table.add
    kothawoc.Dict.open_file kothawoc.Databases.Monad.group_exec kothawoc.Dict.write_file
    kothawoc.Databases.Config.config_get_device_key lookup kothawoc.Dict.insert
    kothawoc.Databases.Monad.handle Keytool.set_tor_private_key Keytool.tor_pub_key
    Keytool.set_tor_id
its_worker = refl
