-- ===== src/Databases/Invariant/Start.antt =====
-- A start keeps the invariant.
use kothawoc.Prelude.{
  ℕ, max, codes, beq_iff, beq_self, Option, none, some, List, [], ◌∷◌, All, ◌≡◌, refl, arith,
  Option-cases, inl, inr, ◌≤◌,
}
use mathlib.Core.Path.{subst}
use kothawoc.Prelude.Int.{pos}
use kothawoc.Serror.{sentinel, constraint}
use kothawoc.Dict.{lookup}
use kothawoc.Table.{Row, Table, find_key, find_id, add_at}
use kothawoc.Table.Laws.{IsTable, Distinct, Apart, All-mono, All-both}
use kothawoc.Databases.State.{Store, Stored}
use kothawoc.Databases.Monad.{Db, Outcome, ok, err, ◌>>◌, pure, modify, traced, site, io}
use kothawoc.Databases.Keeps.{
  Keeps, Into, FaultFree, pure-Keeps, modify-Keeps, bind-Keeps, either-Keeps, traced-Keeps,
  io-Keeps, bind-Into, bind-Gives, traced-Gives, io-Gives, Into-Keeps,
}
use kothawoc.Databases.Groups.{register}
use kothawoc.Databases.Open.{
  delete_me, seed, create_articles, create_groups, open_create_db, open_each, open_groups,
  new_backend_dbs,
}
use kothawoc.Databases.Open.Laws.{seed-new}
use kothawoc.Databases.Invariant.{IsValid, Listed, free}
use kothawoc.Databases.Invariant.Groups.{register-Into}

module _ {A : Type 0} where
  raised :
      (t : ℕ) (table : Table A)
      → IsTable table
      → IsTable (record { seq = max table.seq t; rows = table.rows })
  raised t table h = record {
    bounded =
        All-mono (λ r. r.id ≤ table.seq) (λ r. r.id ≤ max table.seq t) table.rows
          (λ r b. omega arith) h.bounded;
    distinct = h.distinct;
  }

  seed-old :
      (t : ℕ) (a : A) (table : Table A) (r : Row A)
      → find_key delete_me table.rows ≡ some r
      → seed t a table ≡ none
  unfolding seed add_at
  seed-old t a table r e = ground arith

  seed-old_id :
      (t : ℕ) (a : A) (table : Table A) (r : Row A)
      → find_id t table.rows ≡ some r
      → seed t a table ≡ none
  unfolding seed add_at
  seed-old_id t a table r e = ground arith

  -- A row that was put in and taken out again leaves the rows.
  seed-inv :
      (t : ℕ) (a : A) (table table' : Table A)
      → seed t a table ≡ some table'
      → record { seq = max table.seq t; rows = table.rows } ≡ table'
  seed-inv t a table table' e = elim (Option-cases (find_id t table.rows)) [
    | inl id ↦ elim (Option-cases (find_key delete_me table.rows)) [
      | inl key ↦ cc (seed-new t a table id key)
      | inr (r, key) ↦ cc (seed-old t a table r key)
    ]
    | inr (r, id) ↦ cc (seed-old_id t a table r id)
  ]

create_articles-Keeps : (t : ℕ) → Keeps IsValid (create_articles t)
unfolding create_articles
create_articles-Keeps t = record { at = λ s h. go s h (seed t row s.articles) refl }
  where
    row : Stored
    row = record { signature = codes "1"; refs = pos 0 }

    go :
        (s : Store)
        → IsValid s
        → (o : Option (Table Stored)) → seed t row s.articles ≡ o
        → IsValid
            (elim o as (λ _. Outcome (Unit {0}) × Store) [
              | none ↦ (err (sentinel constraint), s)
              | some a ↦ (ok tt, record s { articles = a })
            ]).1
    go s h none e = h
    go s h (some a) e =
        subst (λ a'. IsValid (record s { articles = a' })) (seed-inv t row s.articles a e)
          (record {
            articles = raised t s.articles h.articles;
            groups = h.groups;
            peers = h.peers;
            listed = h.listed;
          })

create_groups-Keeps : (t : ℕ) → Keeps IsValid (create_groups t)
unfolding create_groups
create_groups-Keeps t = record { at = λ s h. go s h (seed t tt s.groups) refl }
  where
    go :
        (s : Store)
        → IsValid s
        → (o : Option (Table (Unit {0}))) → seed t tt s.groups ≡ o
        → IsValid
            (elim o as (λ _. Outcome (Unit {0}) × Store) [
              | none ↦ (err (sentinel constraint), s)
              | some g ↦ (ok tt, record s { groups = g })
            ]).1
    go s h none e = h
    go s h (some g) e =
        subst (λ g'. IsValid (record s { groups = g' })) (seed-inv t tt s.groups g e)
          (record {
            articles = h.articles;
            groups = raised t s.groups h.groups;
            peers = h.peers;
            listed = h.listed;
          })

open_create_db-Keeps :
    (script : Db (Unit {0})) → Keeps IsValid script → Keeps IsValid (open_create_db script)
unfolding open_create_db
open_create_db-Keeps script k =
    bind-Keeps _ _ (traced-Keeps _ _ (io-Keeps free _ (pure-Keeps tt))) (λ _.
      bind-Keeps _ _ (traced-Keeps _ _ (io-Keeps free _ k))
        (λ _. traced-Keeps _ _ (io-Keeps free _ (pure-Keeps tt))))

-- While the groups are being opened, those that are left are listed.
abbrev Opening : List (Row (Unit {0})) → Store → Type 0
Opening rows s = IsValid s × All (λ r. Listed s r.key r.id) rows

Opening-free : (rows : List (Row (Unit {0}))) → FaultFree (Opening rows)
Opening-free rows s fs h = (free s fs h.0, h.1)

open_each-Into : (rows : List (Row (Unit {0}))) → Into (Opening rows) IsValid (open_each rows)
unfolding open_each register
open_each-Into [] = record { at = λ s h. h.0 }
open_each-Into (r ∷ rows) =
    let R = Opening (r ∷ rows) in
    let step : Keeps R (traced (site "openGroups" 339) (io (pure tt))) =
      traced-Keeps _ _ (io-Keeps (Opening-free (r ∷ rows)) _ (pure-Keeps tt)) in
    let step' : Keeps R (traced (site "openGroups" 344) (io (pure tt))) =
      traced-Keeps _ _ (io-Keeps (Opening-free (r ∷ rows)) _ (pure-Keeps tt)) in
    let opened : Db (Unit {0}) = modify (register r.key r.id) >> open_each rows in
    let m' : Db (Unit {0}) = traced (site "openGroups" 344) (io (pure tt)) in
    let rest : Into R IsValid opened = record {
      at = λ s h.
          (open_each-Into rows).at (register r.key r.id s)
            ((register-Into r.key r.id).at s (h.0, h.1.0), h.1.1);
    } in
    bind-Into {P = IsValid} {R = R} (λ s h. h.0) _ (λ _. m' >> opened) step
      (λ _. bind-Into {P = IsValid} {R = R} (λ s h. h.0) m' (λ _. opened) step' (λ _. rest))

-- Every row is found under its key.
All-listed :
    (rows : List (Row (Unit {0})))
    → Distinct rows
    → All (λ r. (q : Row (Unit {0})) × (find_key r.key rows ≡ some q) × (q.id ≡ r.id)) rows
unfolding find_key
All-listed [] d = tt
All-listed (r ∷ rows) d = (
  (r, ground (arith, beq_self r.key), refl),
  All-mono
      (λ x. Apart r x × ((q : Row (Unit {0})) × (find_key x.key rows ≡ some q) × (q.id ≡ x.id)))
      (λ x. (q : Row (Unit {0})) × (find_key x.key (r ∷ rows) ≡ some q) × (q.id ≡ x.id)) rows
      (λ x h. (h.1.0, other x h.0 h.1.0 h.1.1, h.1.2))
      (All-both (Apart r)
        (λ x. (q : Row (Unit {0})) × (find_key x.key rows ≡ some q) × (q.id ≡ x.id)) rows d.0
        (All-listed rows d.1)),
)
  where
    other :
        (x : Row (Unit {0}))
        → Apart r x
        → (q : Row (Unit {0})) → find_key x.key rows ≡ some q
        → find_key x.key (r ∷ rows) ≡ some q
    other x apart q e = ground (arith, beq_iff r.key x.key)

open_groups-Keeps : Keeps IsValid open_groups
unfolding open_groups
open_groups-Keeps = Into-Keeps _ (
    bind-Gives (λ s h. h) _ _ Opening
      (traced-Gives _ _ _ (
        io-Gives free _ _ (record { at = λ s h. (h, All-listed s.groups.rows h.groups.distinct) })))
      open_each-Into)

-- A start keeps the invariant, whichever calls of SQLite or the system fail.
pub new_backend_dbs-Keeps : (t : ℕ) → Keeps IsValid (new_backend_dbs t)
unfolding new_backend_dbs lookup
new_backend_dbs-Keeps t =
    bind-Keeps _ _ (traced-Keeps _ _ (open_create_db-Keeps _ (create_articles-Keeps t))) (λ _.
      bind-Keeps _ _ (traced-Keeps _ _ (open_create_db-Keeps _ (pure-Keeps tt))) (λ _.
        bind-Keeps _ _ (traced-Keeps _ _ (open_create_db-Keeps _ (create_groups-Keeps t))) (λ _.
          bind-Keeps _ _ (traced-Keeps _ _ (open_create_db-Keeps _ (pure-Keeps tt))) (λ _.
            bind-Keeps _ _ closed (λ _.
              either-Keeps _ _ _ open_groups-Keeps (λ _. pure-Keeps tt) (λ _. pure-Keeps tt))))))
  where
    closed :
        Keeps IsValid (modify (λ s. record s { group_articles = []; name2int = []; name2hex = [] }))
    closed = modify-Keeps _ (λ s h. record {
      articles = h.articles;
      groups = h.groups;
      peers = h.peers;
      listed = λ name n e. cc;
    })
