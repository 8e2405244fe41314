-- ===== src/Databases/Invariant/Server.antt =====
-- Every command of `dbServer` keeps the invariant.
use kothawoc.Prelude.{Bytes, Option, none, some}
use kothawoc.Header.{Header}
use kothawoc.Keytool.{Crypto}
use kothawoc.Databases.State.{Store}
use kothawoc.Databases.Monad.{Db}
use kothawoc.Databases.Server.{Command, serve}
use kothawoc.Databases.Keeps.{Keeps}
use kothawoc.Databases.Stable.{IsStable, Granted}
use kothawoc.Databases.Stable.Server.{serve-Keeps}
use kothawoc.Databases.Invariant.{IsValid, free, disk_free, config_free}
use kothawoc.Databases.Invariant.Articles.{store_article-Keeps, update_refs-Keeps}
use kothawoc.Databases.Invariant.Groups.{new_group-Keeps}
use kothawoc.Databases.Invariant.Rest.{insert_peer-Keeps, remove_file-Keeps}

-- Any article may be stored.
abbrev pub Anything : Header → Bytes → Type 0
Anything h raw = Unit

pub any-Granted : (cmd : Command) → Granted Anything cmd
any-Granted (Command.store_article h none) = tt
any-Granted (Command.store_article h (some raw)) = tt
any-Granted _ = tt

pub IsValid-IsStable : IsStable IsValid Anything
IsValid-IsStable = record {
  free = free;
  disk_free = disk_free;
  config_free = config_free;
  insert_peer = insert_peer-Keeps;
  update_refs = update_refs-Keeps;
  remove_file = remove_file-Keeps;
  new_group = new_group-Keeps;
  store_article = λ h raw _. store_article-Keeps h raw;
}

module _ (c : Crypto) (read_message : Bytes → Option (Header × Bytes))
    (remove_peer : Bytes → Db (Unit {0}))
    (keeps : (id : Bytes) → Keeps IsValid (remove_peer id)) where
  -- Whatever the command, and whichever calls of SQLite or the system fail, an error or a panic on the
  -- way included, the state afterwards satisfies the invariant if the state before did and `RemovePeer`
  -- keeps it.
  pub serve-IsValid :
      (cmd : Command) (s : Store) → IsValid s → IsValid (serve c read_message remove_peer cmd s).1
  serve-IsValid cmd =
      serve-Keeps IsValid-IsStable c read_message remove_peer keeps cmd (any-Granted cmd)
