-- ===== src/Tests/Groups.antt =====
-- Runs of the model of internal/databases: groups, settings, starts and the server.
use kothawoc.Prelude.{
  ℕ, suc, Bytes, codes, Bool, true, false, Option, none, some, List, [], ◌∷◌, ◌≡◌, ◌≢◌, refl, arith,
  if◌then◌else◌, ◌==◌,
}
use kothawoc.Prelude.Int.{pos}
use kothawoc.Dict.{lookup, open_file}
use kothawoc.Table.{find_key, find_id}
use kothawoc.Databases.State.{Store}
use kothawoc.Databases.Monad.{ok}
use kothawoc.Databases.Groups.{CardField, new_group, get_group_number, list_articles}
use kothawoc.Databases.Groups.Creating.{described, granted_by, new_group_new}
use kothawoc.Databases.Groups.Listing.{count, in_range, numbers, list_articles_range}
use kothawoc.Databases.Open.{new_backend_dbs}
use kothawoc.Databases.Open.Laws.{number_or, new_backend_dbs_opens}
use kothawoc.Tests.Data.{node, lounge, lounge_db}

abbrev yes : Bytes → Bytes
yes field = codes "true"

abbrev card : List CardField
card = record { value = codes "xyz"; param = yes } ∷ []

new_group_new_example :
    (s' : Store) × (new_group (codes "abc.news") (codes "News") card node ≡ (ok tt, s'))
    × (get_group_number (codes "abc.news") s' ≡ (ok 8, s'))
    × (lookup (codes "abc.news") s'.group_articles ≡ some 8)
    × (open_file 8 s'.disk
        ≡ some (record (described (codes "News")) { perms = granted_by card [] }))
unfolding find_key open_file kothawoc.Prelude.beq
new_group_new_example =
    new_group_new (codes "abc.news") (codes "News") card node (ground arith) refl refl refl

list_articles_range_example :
    (l : List ℕ) × (list_articles lounge (pos 3) (pos 12) node ≡ (ok l, node))
    × (count 9 l
        ≡ (if in_range (pos 3) (pos 12) 9 then count 9 (numbers lounge_db.articles) else 0))
unfolding lookup open_file kothawoc.Prelude.beq
list_articles_range_example =
    list_articles_range lounge (pos 3) (pos 12) 9 node 7 lounge_db refl refl refl refl

new_backend_dbs_opens_example :
    (s' : Store) × (new_backend_dbs 12 node ≡ (ok tt, s'))
    × (s'.articles.rows ≡ node.articles.rows)
    × (s'.groups.rows ≡ node.groups.rows)
    × (lookup lounge s'.group_articles ≡ number_or none (find_key lounge node.groups.rows))
unfolding find_key find_id kothawoc.Prelude.beq
new_backend_dbs_opens_example =
    new_backend_dbs_opens 12 lounge node (ground arith) refl refl refl refl refl
