-- ===== src/Databases/Open.antt =====
-- `NewBackendDbs`, `openCreateDB` and `openGroups` of internal/databases/databases.go: the state after
-- a start at the time `t`, from what an earlier run left on the disk.
pub mod Laws
use kothawoc.Prelude.{ℕ, String, Bytes, codes, Bool, true, false, Option, none, some, List, [], ◌∷◌}
use kothawoc.Prelude.Int.{pos}
use kothawoc.Serror.{Error, sentinel, constraint}
use kothawoc.Table.{Table, Row, add_at, delete}
use kothawoc.Databases.State.{Store, Stored}
use kothawoc.Databases.Monad.{
  Db, Outcome, ok, err, panic, ◌>>=◌, ◌>>◌, pure, io, modify, traced, site, either,
}
use kothawoc.Databases.Groups.{register}

abbrev pub delete_me : Bytes
delete_me = codes "DELETEME"

-- The last two statements of `createArticlesDB` and of `createGroupsDB`: a row numbered by the time
-- is put in, so that later numbers lie above it, and taken out.
unfoldable pub seed : {A : Type 0} → ℕ → A → Table A → Option (Table A)
seed t a table = elim (add_at t delete_me a table) [
  | none ↦ none
  | some table' ↦ some (record table' { rows = delete delete_me table'.rows })
]

unfoldable pub create_articles : ℕ → Db (Unit {0})
unfolding seed
create_articles t s = elim (seed t (record { signature = codes "1"; refs = pos 0 }) s.articles) [
  | none ↦ (err (sentinel constraint), s)
  | some a ↦ (ok tt, record s { articles = a })
]

unfoldable pub create_groups : ℕ → Db (Unit {0})
unfolding seed
create_groups t s = elim (seed t tt s.groups) [
  | none ↦ (err (sentinel constraint), s)
  | some g ↦ (ok tt, record s { groups = g })
]

-- `openCreateDB`: open, run the script, set the pragmas.
unfoldable pub open_create_db : Db (Unit {0}) → Db (Unit {0})
open_create_db script =
    traced (site "openCreateDB" 109) (io (pure tt))
    >> (traced (site "openCreateDB" 114) (io script)
        >> traced (site "openCreateDB" 119) (io (pure tt)))

-- The loop of `openGroups`.
unfoldable pub open_each : List (Row (Unit {0})) → Db (Unit {0})
unfolding register
open_each [] = pure tt
open_each (r ∷ rows) =
    traced (site "openGroups" 339) (io (pure tt))
    >> (traced (site "openGroups" 344) (io (pure tt))
        >> (modify (register r.key r.id) >> open_each rows))

-- `openGroups`
unfoldable pub open_groups : Db (Unit {0})
unfolding open_each
open_groups =
    traced (site "openGroups" 319) (io (λ s. (ok s.groups.rows, s))) >>= λ rows. open_each rows

-- `NewBackendDbs`. The error of `openGroups` is dropped.
unfoldable pub new_backend_dbs : ℕ → Db (Unit {0})
unfolding open_create_db create_articles create_groups open_groups
new_backend_dbs t =
    traced (site "NewBackendDbs" 134) (open_create_db (create_articles t))
    >> (traced (site "NewBackendDbs" 140) (open_create_db (pure tt))
        >> (traced (site "NewBackendDbs" 146) (open_create_db (create_groups t))
            >> (traced (site "NewBackendDbs" 152) (open_create_db (pure tt))
                >> (modify (λ s. record s { group_articles = []; name2int = []; name2hex = [] })
                    >> either open_groups (λ _. pure tt) (λ _. pure tt)))))
