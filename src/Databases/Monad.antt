-- ===== src/Databases/Monad.antt =====
-- A method of `backendDbs`: it changes the state, and returns a value, an error or panics. What was
-- written before an error stays written.
use kothawoc.Prelude.{ℕ, String, true, false, Option, none, some, [], ◌∷◌, Bytes}
use kothawoc.Serror.{Error, Sentinel, sentinel, serror, io_error, no_such_table, Caller}
use kothawoc.Dict.{lookup, open_file, write_file}
use kothawoc.Databases.State.{Store, GroupDb}

pub data Outcome (A : Type 0) : Type 0 where
  ok : A → Outcome A
  err : Error → Outcome A
  panic : Outcome A

abbrev pub Db : Type 0 → Type 0
Db A = Store → Outcome A × Store

infixl 5 ◌>>=◌ ◌>>◌
abbrev pub ◌>>=◌ : {A B : Type 0} → Db A → (A → Db B) → Db B
◌>>=◌ m f s =
    let (r, s') = m s in elim r [ ok a ↦ f a s' | err e ↦ (err e, s') | panic ↦ (panic, s') ]

abbrev pub ◌>>◌ : {B : Type 0} → Db (Unit {0}) → Db B → Db B
m >> k = m >>= λ _. k

module _ {A : Type 0} where
  abbrev pub pure : A → Db A
  pure a s = (ok a, s)

  abbrev pub fail : Error → Db A
  fail e s = (err e, s)

  abbrev pub crash : Db A
  crash s = (panic, s)

  abbrev pub gets : (Store → A) → Db A
  gets f s = (ok (f s), s)

  -- `none` is the failure of a statement.
  abbrev pub or_fail : Sentinel → Option A → Db A
  or_fail e none = fail (sentinel e)
  or_fail e (some a) = pure a

  -- A call of SQLite or of the system, which may fail before it does anything.
  abbrev pub io : Db A → Db A
  io m s = elim s.faults [
    | [] ↦ m s
    | fault ∷ rest ↦ elim fault [
      | true ↦ (err (sentinel io_error), record s { faults = rest })
      | false ↦ m (record s { faults = rest })
    ]
  ]

  -- `if err != nil { … }`: what a caller makes of an error.
  abbrev pub on_error : Db A → (Error → Db A) → Db A
  on_error m f s =
      let (r, s') = m s in elim r [ ok a ↦ (ok a, s') | err e ↦ f e s' | panic ↦ (panic, s') ]

  -- `if err != nil { return …, serr.New(err) }`
  abbrev pub traced : Caller → Db A → Db A
  traced c m = on_error m (λ e. fail (serror c e))

-- Both ways on from a call whose error the caller looks at.
abbrev pub either : {A B : Type 0} → Db A → (Error → Db B) → (A → Db B) → Db B
either m f g s =
    let (r, s') = m s in elim r [ ok a ↦ g a s' | err e ↦ f e s' | panic ↦ (panic, s') ]

abbrev pub modify : (Store → Store) → Db (Unit {0})
modify f s = (ok tt, f s)

-- A line of internal/databases/databases.go.
abbrev pub site : String → ℕ → Caller
site name line = record { runtime_name = name; function = "databases.go"; line = line }

module _ {A : Type 0} where
  -- `if db, ok := dbs.groupArticles[group]; ok { … }`
  unfoldable pub if_open : Bytes → Db A → (ℕ → Db A) → Db A
  if_open group m f s = elim (lookup group s.group_articles) [ none ↦ m s | some n ↦ f n s ]

  -- `dbs.groupArticles[group]` is nil for a group that is not open, and its use panics.
  unfoldable pub handle : Bytes → (ℕ → Db A) → Db A
  unfolding if_open
  handle group f = if_open group crash f

  -- A query on a group's database; SQLite opens a file that is not there as an empty database.
  unfoldable pub group_query : ℕ → (GroupDb → Option A) → Sentinel → Db A
  group_query n f e = io (λ s. elim (open_file n s.disk) [
    | none ↦ (err (sentinel no_such_table), s)
    | some g ↦ or_fail e (f g) s
  ])

-- A statement that changes a group's database; `none` is a constraint.
unfoldable pub group_exec : ℕ → (GroupDb → Option GroupDb) → Sentinel → Db (Unit {0})
group_exec n f e = io (λ s. elim (open_file n s.disk) [
  | none ↦ (err (sentinel no_such_table), s)
  | some g ↦ elim (f g) [
    | none ↦ (err (sentinel e), s)
    | some g' ↦ (ok tt, record s { disk = write_file n g' s.disk })
  ]
])
