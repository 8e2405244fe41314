-- ===== src/Databases/Config.antt =====
-- The config tables of internal/databases/databases.go: the device's and those of the groups, and
-- the conversions of `Rows.Scan`.
pub mod Laws
use kothawoc.Prelude.{ℕ, suc, Bytes, codes, String, Bool, Option, none, some, List, [], ◌∷◌}
use kothawoc.Prelude.Int.{ℤ, pos, negsuc}
use kothawoc.Serror.{Error, sentinel, no_rows, bad_scan, syntax_error, constraint}
use kothawoc.Dict.{lookup, insert}
use kothawoc.Text.{format_int, parse_int}
use kothawoc.Keytool.{EasyEdKey, empty_key, set_tor_private_key}
use kothawoc.Databases.State.{Store, GroupDb, Value, int, text, blob}
use kothawoc.Databases.Monad.{
  Db, Outcome, ok, err, panic, ◌>>=◌, ◌>>◌, pure, fail, io, or_fail, modify, traced, site, handle,
  group_query, group_exec, either,
}

-- `%d`
unfoldable pub format_ℤ : ℤ → Bytes
format_ℤ (pos n) = format_int 10 n
format_ℤ (negsuc n) = b'-' ∷ format_int 10 (suc n)

-- A value scanned into a `string` or a `[]byte`.
unfoldable pub as_bytes : Value → Bytes
as_bytes (int n) = format_ℤ n
as_bytes (text b) = b
as_bytes (blob b) = b

-- A value scanned into an `int64`.
unfoldable pub as_int64 : Value → Option ℤ
as_int64 (int n) = some n
as_int64 (text b) = parse_int b
as_int64 (blob b) = parse_int b

-- `configSet`
unfoldable pub config_set : Bytes → Value → Db (Unit {0})
config_set key val =
    traced (site "configSet" 745) (io (modify (λ s. record s { config = insert key val s.config })))

-- `SELECT val FROM config WHERE key=?` on the device's table.
unfoldable pub config_row : Bytes → Db Value
config_row key = io (λ s. or_fail no_rows (lookup key s.config) s)

-- `configGetInt64`
unfoldable pub config_get_int64 : Bytes → Db ℤ
unfolding config_row
config_get_int64 key =
    traced (site "configGetInt64" 771) (config_row key >>= λ v. or_fail bad_scan (as_int64 v))

-- `configGetBytes`
unfoldable pub config_get_bytes : Bytes → Db Bytes
unfolding config_row
config_get_bytes key =
    traced (site "configGetBytes" 797) (config_row key >>= λ v. pure (as_bytes v))

-- `configGetString`
unfoldable pub config_get_string : Bytes → Db Bytes
unfolding config_row
config_get_string key =
    traced (site "configGetString" 823) (config_row key >>= λ v. pure (as_bytes v))

abbrev pub device_key : Bytes
device_key = codes "deviceKey"

-- `configGetDeviceKey`
unfoldable pub config_get_device_key : Db EasyEdKey
unfolding config_get_bytes
config_get_device_key =
    traced (site "configGetDeviceKey" 850) (config_get_bytes device_key) >>= λ k.
    pure (set_tor_private_key k empty_key)

-- `groupConfigSet`
unfoldable pub group_config_set : Bytes → Bytes → Value → Db (Unit {0})
group_config_set group key val = handle group (λ n.
    traced (site "groupConfigSet" 1317)
      (group_exec n (λ g. some (record g { config = insert key val g.config })) constraint))

-- `groupConfigGetInt64`
unfoldable pub group_config_get_int64 : Bytes → Bytes → Db ℤ
group_config_get_int64 group key = handle group (λ n.
    traced (site "groupConfigGetInt64" 1344)
      (group_query n (λ g. lookup key g.config) no_rows >>= λ v. or_fail bad_scan (as_int64 v)))

-- `INSERT INTO subscriptions(group)`: GROUP is a keyword, and the error is not looked at.
unfoldable pub subscribe : List Bytes → Db (Unit {0})
subscribe [] = pure tt
subscribe (i ∷ list) =
    either (io (fail (sentinel syntax_error))) (λ _. subscribe list)
      (λ (_ : Unit {0}). subscribe list)

-- `groupUpdateSubscriptions`
unfoldable pub group_update_subscriptions : Bytes → List Bytes → Db (Unit {0})
unfolding subscribe
group_update_subscriptions group list = handle group (λ n.
    traced (site "groupUpdateSubscriptions" 1371)
      (group_exec n (λ g. some (record g { subscriptions = [] })) constraint)
    >> subscribe list)
