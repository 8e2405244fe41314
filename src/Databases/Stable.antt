-- ===== src/Databases/Stable.antt =====
-- Properties of the state that every command keeps, whichever calls of SQLite or the system fail: what
-- has to be shown of one.
pub mod Articles
pub mod Groups
pub mod Rest
pub mod Server
pub mod Lasting
pub mod Starting
use kothawoc.Prelude.{Bytes, Option, none, some, List}
use kothawoc.Prelude.Int.{ℤ}
use kothawoc.Serror.{Sentinel}
use kothawoc.Header.{Header}
use kothawoc.Dict.{Dict}
use kothawoc.Databases.State.{Store, Value}
use kothawoc.Databases.Monad.{Db, ok, or_fail}
use kothawoc.Databases.Keeps.{Keeps, FaultFree, DiskFree, or_fail-Keeps}
use kothawoc.Databases.Articles.{store_article, update_refs}
use kothawoc.Databases.Groups.{CardField, new_group}
use kothawoc.Databases.Peers.{insert_peer}
use kothawoc.Databases.Cancel.{remove_file}
use kothawoc.Databases.Server.{Command}

-- A text that may be stored, or none at all.
abbrev pub Sent : (Header → Bytes → Type 0) → Header → Option Bytes → Type 0
Sent May h none = Unit
Sent May h (some raw) = May h raw

-- The operations that a property is looked at for; an article may be stored if `May` holds of its header
-- and its text.
pub record IsStable (P : Store → Type 0) (May : Header → Bytes → Type 0) : Type 0 where
  pub free : FaultFree P
  pub disk_free : DiskFree P
  pub config_free : (s : Store) (d : Dict Value) → P s → P (record s { config = d })
  pub insert_peer : (torid : Bytes) (pubkey : Option Bytes) → Keeps P (insert_peer torid pubkey)
  pub update_refs : (f : ℤ → ℤ) (mid : Bytes) → Keeps P (update_refs f mid)
  pub remove_file : (sig : Bytes) → Keeps P (remove_file sig)
  pub new_group : (name desc : Bytes) (card : List CardField) → Keeps P (new_group name desc card)
  pub store_article :
      (h : Header) (raw : Option Bytes) → Sent May h raw → Keeps P (store_article h raw)

-- Is this a command that does not store an article, or one that may be stored?
abbrev pub Granted : (Header → Bytes → Type 0) → Command → Type 0
Granted May (Command.store_article h raw) = Sent May h raw
Granted May _ = Unit

module _ {P : Store → Type 0} {A : Type 0} where
  -- A query changes nothing.
  pub or_fail-query : (e : Sentinel) (f : Store → Option A) → Keeps P (λ s. or_fail e (f s) s)
  or_fail-query e f = record { at = λ s h. (or_fail-Keeps {P = P} e (f s)).at s h }

  pub gets-Keeps : (f : Store → A) → Keeps P (λ s. (ok (f s), s))
  gets-Keeps f = record { at = λ s h. h }
