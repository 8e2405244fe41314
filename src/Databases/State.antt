-- ===== src/Databases/State.antt =====
-- The state behind `backendDbs`: the four databases, the database of each group, the open handles
-- and the directory of articles; the tables are those of the `create…DB` constants.
use kothawoc.Prelude.{ℕ, Bytes, Bool, Option, List}
use kothawoc.Prelude.Int.{ℤ}
use kothawoc.Dict.{Dict, Disk}
use kothawoc.Table.{Table}

-- A value of a config table, as `interface{}` hands it to SQLite and back.
pub data Value : Type 0 where
  int : ℤ → Value
  text blob : Bytes → Value

-- `PermissionsGroupT`, and a row of `perms`.
pub record Permissions : Type 0 where
  pub read : Bool
  pub reply : Bool
  pub post : Bool
  pub cancel : Bool
  pub supersede : Bool

-- The columns of `articles` behind `id` and `messageid`.
pub record Stored : Type 0 where
  pub signature : Bytes
  pub refs : ℤ

-- The columns of `peers` behind `id` and `torid`.
pub record PeerData : Type 0 where
  pub pubkey : Bytes
  pub name : Bytes

-- A row of a group's `articles`.
pub record Entry : Type 0 where
  pub id : ℕ
  pub messageid : Bytes

-- The tables of `createArticleIndexDB`.
pub record GroupDb : Type 0 where
  pub articles : List Entry
  pub subscriptions : List Bytes
  pub config : Dict Value
  pub perms : Dict Permissions

-- `disk` holds the group databases by the number in the file's name, and `files` the directory
-- `articles` by signature. `faults` says of each coming call of SQLite or the system whether it
-- fails; past its end none does. `torn` says of each write of a file that fails what it leaves: the file
-- as it was, `none`, or the beginning of the new text, of such a length; past its end the file is as it was.
pub record Store : Type 0 where
  pub articles : Table Stored
  pub config : Dict Value
  pub groups : Table (Unit {0})
  pub peers : Table PeerData
  pub group_articles : Dict ℕ
  pub name2int : Dict ℕ
  pub name2hex : Dict Bytes
  pub disk : Disk GroupDb
  pub files : Dict Bytes
  pub faults : List Bool
  pub torn : List (Option ℕ)
