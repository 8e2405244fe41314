-- ===== src/Databases/Config/Laws.antt =====
-- What was set is got back.
use kothawoc.Prelude.{ℕ, Bytes, beq_iff, beq_self, some, List, [], ◌∷◌, ◌≡◌, ◌≢◌, refl, arith}
use kothawoc.Prelude.Int.{ℤ}
use kothawoc.Dict.{lookup, lookup-insert, open_file, write_file, open_file-write_file}
use kothawoc.Keytool
use kothawoc.Keytool.{Crypto, EasyEdKey, empty_key, tor_priv_key, set_tor_private_key}
use kothawoc.Databases.State.{Store, GroupDb, int, blob}
use kothawoc.Databases.Monad.{ok, handle, group_exec, if_open}
use kothawoc.Databases.Config.{
  config_set, config_get_int64, config_get_device_key, device_key, as_int64, as_bytes,
  group_update_subscriptions, subscribe,
}

-- When no call fails, an integer that is set under one key is read back from it, and what is read from
-- any other key is what was read before.
config_get_int64-config_set :
    (k j : Bytes) (n : ℤ) (s : Store)
    → s.faults ≡ []
    → k ≢ j
    → let (r, s') = config_set k (int n) s in
      (r ≡ ok tt)
      × (config_get_int64 k s' ≡ (ok n, s'))
      × ((config_get_int64 j s').0 ≡ (config_get_int64 j s).0)
unfolding config_set config_get_int64 as_int64
config_get_int64-config_set k j n s calm ne = (
  ground arith,
  ground (arith, lookup-insert k k (int n) s.config, beq_self k),
  ground (arith, lookup-insert k j (int n) s.config, beq_iff k j),
)

-- When no call fails, the private key that is stored as the device's key is the one that the device
-- key gives back.
pub config_get_device_key-config_set :
    (c : Crypto) (k : Bytes) (s : Store)
    → s.faults ≡ []
    → (e : EasyEdKey) × ((config_get_device_key (config_set device_key (blob k) s).1).0 ≡ ok e)
      × (tor_priv_key c e ≡ Keytool.ok k)
unfolding config_set config_get_device_key as_bytes tor_priv_key set_tor_private_key
config_get_device_key-config_set c k s calm = (
  set_tor_private_key k empty_key,
  ground (arith, lookup-insert device_key device_key (blob k) s.config, beq_self device_key),
  refl,
)

subscribe_calm : (l : List Bytes) (s : Store) → s.faults ≡ [] → subscribe l s ≡ (ok tt, s)
unfolding subscribe
subscribe_calm [] s calm = refl
subscribe_calm (i ∷ l) s calm = ground (arith, subscribe_calm l s)

-- In an open group, when no call fails and the group's database is there, `groupUpdateSubscriptions`
-- reports success and leaves no subscription at all, whatever the list.
pub group_update_subscriptions_clears :
    (group : Bytes) (l : List Bytes) (s : Store) (n : ℕ) (g : GroupDb)
    → s.faults ≡ []
    → lookup group s.group_articles ≡ some n
    → open_file n s.disk ≡ some g
    → let (r, s') = group_update_subscriptions group l s in
      (r ≡ ok tt) × (open_file n s'.disk ≡ some (record g { subscriptions = [] }))
unfolding group_update_subscriptions handle if_open group_exec
group_update_subscriptions_clears group l s n g calm opened file =
    let g' : GroupDb = record g { subscriptions = [] } in
    let s' : Store = record s { disk = write_file n g' s.disk } in
    (
      ground (arith, subscribe_calm l s'),
      ground (arith, subscribe_calm l s', open_file-write_file n n g' s.disk),
    )
