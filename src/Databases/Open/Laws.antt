-- ===== src/Databases/Open/Laws.antt =====
-- After a start every listed group is open.
use kothawoc.Prelude.{
  ℕ, Bytes, beq, beq_iff, Option, none, some, List, [], ◌∷◌, ◌≡◌, refl, arith, Option-cases, inl,
  inr, ap, ◌++◌, max, codes,
}
use kothawoc.Prelude.Int.{pos}
use kothawoc.Dict.{lookup, lookup-insert}
use kothawoc.Table.{Row, Table, find_key, find_id, delete, add_at}
use kothawoc.Table.Laws.{IsTable, Distinct, Apart, find_key-All}
use kothawoc.Databases.State.{Store, Stored}
use kothawoc.Databases.Monad.{ok}
use kothawoc.Databases.Groups.{register}
use kothawoc.Databases.Open.{
  open_each, open_groups, new_backend_dbs, create_articles, create_groups, seed, delete_me,
  open_create_db,
}

-- The number of the row, or what there was before.
abbrev pub number_or : Option ℕ → Option (Row (Unit {0})) → Option ℕ
number_or o none = o
number_or o (some r) = some r.id

find_key-name :
    (k : Bytes) (rs : List (Row (Unit {0}))) (r : Row (Unit {0}))
    → find_key k rs ≡ some r
    → r.key ≡ k
unfolding find_key
find_key-name k [] r e = cc
find_key-name k (q ∷ rs) r e = ground (arith, beq_iff q.key k, find_key-name k rs r)

open_each_calm :
    (name : Bytes) (rows : List (Row (Unit {0}))) (s : Store)
    → s.faults ≡ []
    → Distinct rows
    → (s' : Store) × (open_each rows s ≡ (ok tt, s'))
      × (s'.groups ≡ s.groups)
      × (s'.articles ≡ s.articles)
      × (lookup name s'.group_articles
          ≡ number_or (lookup name s.group_articles) (find_key name rows))
unfolding open_each register find_key
open_each_calm name [] s calm d = (s, refl, refl, refl, refl)
open_each_calm name (r ∷ rows) s calm d =
    let (s', run, same, same', found) = open_each_calm name rows (register r.key r.id s) calm d.1 in
    (
      s',
      ground (arith, run),
      same,
      same',
      elim (Option-cases (find_key name rows)) [
        | inl none' ↦ ground (arith, found, none', lookup-insert r.key name r.id s.group_articles)
        | inr (q, e) ↦ ground (
          arith,
          found,
          find_key-All (Apart r) name rows q d.0 e,
          find_key-name name rows q e,
          beq_iff r.key name,
        )
      ],
    )

delete-seed :
    {A : Type 0}
    → (t : ℕ) (a : A) (rs : List (Row A)) → find_key delete_me rs ≡ none
    → delete delete_me (rs ++ (record { id = t; key = delete_me; rest = a } ∷ [])) ≡ rs
unfolding delete find_key beq
delete-seed t a [] h = refl
delete-seed t a (r ∷ rs) h = ground (arith, delete-seed t a rs)

-- The row that numbers by the time leaves nothing but the counter.
pub seed-new :
    {A : Type 0}
    → (t : ℕ) (a : A) (table : Table A) → find_id t table.rows ≡ none
    → find_key delete_me table.rows ≡ none
    → seed t a table ≡ some (record { seq = max table.seq t; rows = table.rows })
unfolding seed add_at
seed-new t a table h k = ground (arith, delete-seed t a table.rows k)

-- A start on a well-formed table of groups, at a time that numbers no article and no group, when
-- neither is called DELETEME and no call fails, goes through, keeps every row of articles and groups,
-- and opens every group under the number of its row and no other, whatever was open before.
pub new_backend_dbs_opens :
    (t : ℕ) (name : Bytes) (s : Store)
    → IsTable s.groups
    → s.faults ≡ []
    → find_id t s.articles.rows ≡ none
    → find_key delete_me s.articles.rows ≡ none
    → find_id t s.groups.rows ≡ none
    → find_key delete_me s.groups.rows ≡ none
    → (s' : Store) × (new_backend_dbs t s ≡ (ok tt, s'))
      × (s'.articles.rows ≡ s.articles.rows)
      × (s'.groups.rows ≡ s.groups.rows)
      × (lookup name s'.group_articles ≡ number_or none (find_key name s.groups.rows))
unfolding new_backend_dbs open_create_db create_articles create_groups open_groups lookup
new_backend_dbs_opens t name s valid calm id_a key_a id_g key_g =
    let stored : Stored = record { signature = codes "1"; refs = pos 0 } in
    let s1 : Store = record s {
      articles = record { seq = max s.articles.seq t; rows = s.articles.rows };
      groups = record { seq = max s.groups.seq t; rows = s.groups.rows };
      group_articles = [];
      name2int = [];
      name2hex = [];
    } in
    let (s', run, same, same', found) = open_each_calm name s.groups.rows s1 calm valid.distinct in
    (
      s',
      ground
          (arith, run, seed-new t stored s.articles id_a key_a, seed-new t tt s.groups id_g key_g),
      ap (λ (a : Table Stored). a.rows) same',
      ap (λ (a : Table (Unit {0})). a.rows) same,
      found,
    )
