-- ===== src/Databases/Invariant.antt =====
-- The invariant of the databases, and that every command keeps it, whichever calls of SQLite or the
-- system fail.
mod Articles
mod Groups
mod Rest
mod Start
pub mod Reachable
pub mod Server
use kothawoc.Prelude.{
  ℕ, suc, Bytes, codes, Bool, true, false, Option, none, some, List, [], ◌∷◌, ◌≡◌, ◌≢◌, refl, arith,
  beq_iff, beq, if◌then◌else◌, Bool-cases, Option-cases, inl, inr,
}
use kothawoc.Prelude.Int.{ℤ}
use kothawoc.Serror.{Error, Sentinel, Caller, constraint}
use kothawoc.Dict.{Dict, Disk, lookup, insert, lookup-insert}
use kothawoc.Table.{Row, Table, find_key, add, change}
use kothawoc.Table.Laws.{
  IsTable, grown, add-new, add-old, grown-IsTable, find_key-grown, find_key-grown_ne,
  change-IsTable,
}
use kothawoc.Databases.State.{Store, GroupDb, Stored, Value}
use kothawoc.Databases.Monad.{
  Db, Outcome, ok, err, panic, ◌>>=◌, ◌>>◌, pure, fail, crash, io, or_fail, on_error, traced,
  modify, handle, group_query, group_exec, either,
}
use kothawoc.Databases.Keeps.{
  Keeps, pure-Keeps, fail-Keeps, bind-Keeps, either-Keeps, traced-Keeps, on_error-Keeps,
  or_fail-Keeps, handle-Keeps, io-Keeps, group_query-Keeps, group_exec-Keeps,
}
use kothawoc.Databases.Config.{config_set}

-- A group that is open has a row, which gives the number of its database.
abbrev pub Listed : Store → Bytes → ℕ → Type 0
Listed s name n = (r : Row (Unit {0})) × (find_key name s.groups.rows ≡ some r) × (r.id ≡ n)

-- In the tables of articles, groups and peers no number and no key occurs twice, and no number lies
-- above the counter; every open group is listed under the number of its database.
pub record IsValid (s : Store) : Type 0 where
  pub articles : IsTable s.articles
  pub groups : IsTable s.groups
  pub peers : IsTable s.peers
  pub listed : (name : Bytes) (n : ℕ) → lookup name s.group_articles ≡ some n → Listed s name n

pub free : (s : Store) (fs : List Bool) → IsValid s → IsValid (record s { faults = fs })
free s fs h = record {
  articles = h.articles;
  groups = h.groups;
  peers = h.peers;
  listed = h.listed;
}

pub disk_free : (s : Store) (d : Disk GroupDb) → IsValid s → IsValid (record s { disk = d })
disk_free s d h = record {
  articles = h.articles;
  groups = h.groups;
  peers = h.peers;
  listed = h.listed;
}

pub config_free : (s : Store) (d : Dict Value) → IsValid s → IsValid (record s { config = d })
config_free s d h = record {
  articles = h.articles;
  groups = h.groups;
  peers = h.peers;
  listed = h.listed;
}

pub files_free : (s : Store) (d : Dict Bytes) → IsValid s → IsValid (record s { files = d })
files_free s d h = record {
  articles = h.articles;
  groups = h.groups;
  peers = h.peers;
  listed = h.listed;
}
