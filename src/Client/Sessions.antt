-- ===== src/Client/Sessions.antt =====
-- Who gets a session with a node, and that a node keeps its identity.
use kothawoc.Prelude.{
  Bytes, beq, Bool, true, false, Option, none, some, List, [], ◌∷◌, map, ◌≡◌, refl, arith, ◌∙◌, sym,
  ap, inl, inr, Bool-cases,
}
use kothawoc.Header.{Header}
use kothawoc.Dict.{lookup, insert, lookup-insert_self}
use kothawoc.Table.{Row, find_key}
use kothawoc.Keytool
use kothawoc.Keytool.{
  Crypto, IsLawful, EasyEdKey, empty_key, tor_private, generate_key, set_private_key,
  set_tor_private_key, set_tor_public_key, tor_id, tor_priv_key,
}
use kothawoc.Torutils
use kothawoc.Torutils.{server_handshake}
use kothawoc.Torutils.Authentic.{server_handshake-Accepted}
use kothawoc.Databases.State.{Store, PeerData, blob}
use kothawoc.Databases.Monad.{Db}
use kothawoc.Databases.Config
use kothawoc.Databases.Config.{device_key, as_bytes}
use kothawoc.Databases.Peers
use kothawoc.Databases.Server.{serve, answer, answer_error}
use kothawoc.Databases.Client as Dbs
use kothawoc.Databases.Client.{returned, crashed, pass_error, no_error}
use kothawoc.Backend.{tor_mode}
use kothawoc.Client.{Client, auth_callback, listed, tor_session, named, start_key}

-- What the handshake makes of the callback's answer.
abbrev pub allows : Option Bool → Bool
allows none = false
allows (some b) = b

module _ (c : Crypto) (read_message : Bytes → Option (Header × Bytes))
    (remove_peer : Bytes → Db (Unit {0})) where
  listed-find_key :
      (id : Bytes) (rows : List (Row PeerData))
      → listed id (map (λ r. r.key) rows) ≡ true
      → (r : Row PeerData) × (find_key id rows ≡ some r)
  unfolding listed find_key
  listed-find_key id [] h = ground (arith, h)
  listed-find_key id (q ∷ rows) h = elim (Bool-cases (beq q.key id)) [
    | inl same ↦ (q, ground (arith, same))
    | inr other ↦
        let (r, found) = listed-find_key id rows (ground (arith, h, other)) in
        (r, ground (arith, found, other))
  ]

  auth_callback-listed :
      (key : Bytes) (s : Store)
      → s.faults ≡ []
      → allows (auth_callback c read_message remove_peer key s).0 ≡ true
      → listed (c.v3_onion_id key) (map (λ r. r.key) s.peers.rows) ≡ true
  unfolding auth_callback tor_id set_tor_public_key Dbs.get_peer_list pass_error serve answer
      Peers.get_peer_list
  auth_callback-listed key s calm h = ground (arith, calm, h)

  -- When no call fails, a connection that `ServerHandshake` accepts under the callback of `torServer` comes
  -- from a key whose identifier stands in the table of peers, and the session that it gets is for that
  -- identifier.
  pub accepted_is_peer :
      (s : Store) (private random conn key : Bytes)
      → s.faults ≡ []
      → (server_handshake c
          (λ k. allows (auth_callback c read_message remove_peer k s).0)
          private
          random
          conn).1
        ≡ Torutils.ok key
      → (r : Row PeerData) × (find_key (c.v3_onion_id key) s.peers.rows ≡ some r)
        × (tor_session c read_message remove_peer key
            ≡ Keytool.ok (record { id = c.v3_onion_id key; conn_mode = tor_mode }))
  unfolding tor_session tor_id set_tor_public_key
  accepted_is_peer s private random conn key calm h =
      let accepted =
        server_handshake-Accepted c (λ k. allows (auth_callback c read_message remove_peer k s).0)
          private random conn key h in
      let (r, found) =
        listed-find_key (c.v3_onion_id key) s.peers.rows
          (auth_callback-listed key s calm accepted.allowed) in
      (r, found, refl)

  -- Where the cryptographic library keeps its laws and no call fails, a node that starts without a device
  -- key makes one; every later start reads it back as a key with the same private half, and the node has
  -- the same identifier.
  pub restart_same_id :
      (lawful : IsLawful c) (s : Store) (k : Bytes)
      → s.faults ≡ []
      → lookup device_key s.config ≡ none
      → c.generate ≡ some k
      → (first : Client) × (second : Client) × (s' : Store) × (start_key c read_message remove_peer
            s
          ≡ (returned (some first) none, s'))
        × (start_key c read_message remove_peer s' ≡ (returned (some second) none, s'))
        × (second.device_id ≡ first.device_id)
        × (tor_priv_key c second.device_key ≡ tor_priv_key c first.device_key)
  unfolding start_key named generate_key tor_priv_key tor_id Dbs.config_get_device_key
      Dbs.config_set pass_error no_error serve answer answer_error Config.config_get_device_key
      Config.config_get_bytes Config.config_set as_bytes set_private_key set_tor_private_key
  restart_same_id lawful s k calm new made =
      let private = c.tor_private k in
      (
        record {
          device_key = set_private_key k empty_key;
          device_id = c.v3_onion_id (c.pair_public k);
        },
        record {
          device_key = set_tor_private_key private empty_key;
          device_id = c.onion_id_of_private private;
        },
        record s { config = insert device_key (blob private) s.config },
        ground (arith, calm, new, made),
        ground (arith, calm, lookup-insert_self device_key (blob private) s.config),
        lawful.onion_id_of_private_lem private ∙ sym (ap c.v3_onion_id (lawful.pair_public_lem k)),
        refl,
      )
