-- ===== src/Databases/Peers.antt =====
-- The peers of internal/databases/databases.go.
pub mod Listing
use kothawoc.Prelude.{Bytes, codes, Option, none, some, List, [], ◌∷◌, ◌++◌, map, if◌then◌else◌}
use kothawoc.Prelude.Int.{pos}
use kothawoc.Serror.{sentinel, message, wrap, no_rows, constraint}
use kothawoc.Dict.{insert}
use kothawoc.Table.{add, find_key}
use kothawoc.Keytool
use kothawoc.Keytool.{Crypto, EasyEdKey, empty_key, tor_id, tor_pub_key, set_tor_id}
use kothawoc.Databases.State.{GroupDb, Value, int, text}
use kothawoc.Databases.Monad.{
  Db, ok, err, ◌>>=◌, ◌>>◌, pure, fail, crash, io, or_fail, traced, site, handle, group_exec,
  either,
}
use kothawoc.Databases.Perms.{is_no_rows}
use kothawoc.Databases.Config.{config_get_device_key}

-- `v, _ := …`: what is left of a failed call is empty.
abbrev or_empty : Keytool.Result Bytes → Bytes
or_empty (Keytool.ok b) = b
or_empty (Keytool.err _) = []

-- `<mine>.peers.<theirs>`
abbrev pub peer_group : Bytes → Bytes → Bytes
peer_group mine theirs = mine ++ (codes ".peers." ++ theirs)

-- `INSERT OR IGNORE INTO config …; UPDATE config SET …`
abbrev put_config : Bytes → Value → GroupDb → Option GroupDb
put_config key val g = some (record g { config = insert key val g.config })

-- A key that is nil where the call failed.
abbrev key_or_nil : Keytool.Result Bytes → Option Bytes
key_or_nil (Keytool.ok b) = some b
key_or_nil (Keytool.err _) = none

-- `INSERT INTO peers(torid,pubkey,name) VALUES(?,?,"")`; a nil key is bound as NULL, which the column does
-- not take.
unfoldable pub insert_peer : Bytes → Option Bytes → Db (Unit {0})
insert_peer torid none = io (fail (sentinel constraint))
insert_peer torid (some pubkey) = io (λ s.
    elim (add torid (record { pubkey = pubkey; name = [] }) s.peers) [
      | none ↦ (err (sentinel constraint), s)
      | some (n, t) ↦ (ok tt, record s { peers = t })
    ])

module _ (c : Crypto) where
  -- `addPeer`, from the point where the peer is known to be new.
  unfoldable pub set_up_peer : Bytes → Db (Unit {0})
  unfolding insert_peer
  set_up_peer peer_id =
      either config_get_device_key (λ _. pure empty_key) (λ k. pure k) >>= λ my_key.
      handle (peer_group (or_empty (tor_id c my_key)) peer_id) (λ n.
        traced (site "addPeer" 1226)
          (group_exec n (put_config (codes "ControlMessages") (text (codes "true"))) constraint)
        >> (traced (site "addPeer" 1231)
              (group_exec n (put_config (codes "Feed") (text peer_id)) constraint)
            >> (traced (site "addPeer" 1236)
                  (group_exec n (put_config (codes "LastMessage") (int (pos 0))) constraint)
                >> traced (site "addPeer" 1248) (
                    insert_peer peer_id
                      (key_or_nil (tor_pub_key c (set_tor_id c peer_id empty_key).1))))))

  -- `addPeer`
  unfoldable pub add_peer : Bytes → Db (Unit {0})
  unfolding set_up_peer
  add_peer peer_id =
      either (io (λ s. or_fail no_rows (find_key peer_id s.peers.rows) s))
        (λ e.
          if is_no_rows e
          then set_up_peer peer_id
          else fail (wrap (site "addPeer" 1214) (some (message "peer add error") ∷ (some e ∷ []))))
        (λ _.
          fail (wrap (site "addPeer" 1211) (some (message "peer already exists") ∷ (none ∷ []))))

-- `getPeerList`; where the query fails it closes rows that are nil, and panics.
unfoldable pub get_peer_list : Db (List Bytes)
get_peer_list =
    either (io (λ s. (ok (map (λ r. r.key) s.peers.rows), s))) (λ _. crash) (λ l. pure l)
