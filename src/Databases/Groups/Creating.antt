-- ===== src/Databases/Groups/Creating.antt =====
-- What `newGroup` makes.
use kothawoc.Prelude.{ℕ, suc, Bytes, none, some, List, [], ◌∷◌, ◌≡◌, refl, arith}
use kothawoc.Serror.{sentinel, serror, constraint}
use kothawoc.Dict.{
  Dict, Disk, lookup, insert, lookup-insert_self, open_file, write_file, open_file-write_file,
}
use kothawoc.Table.{Row, find_key}
use kothawoc.Table.Laws.{IsTable, grown, add-new, add-old, find_key-grown}
use kothawoc.Databases.State.{Store, GroupDb, Permissions, text}
use kothawoc.Databases.Monad.{ok, err, group_exec, site}
use kothawoc.Databases.Groups.{
  CardField, new_group, insert_group, create_index, grant, register, permissions_of, description,
  flags, empty_db, get_group_number,
}

-- The permissions that a card's fields add up to: a later field of a node takes an earlier one's place.
abbrev pub granted_by : List CardField → Dict Permissions → Dict Permissions
granted_by [] d = d
granted_by (v ∷ vs) d = granted_by vs (insert v.value (permissions_of v) d)

grant_calm :
    (n : ℕ) (card : List CardField) (s : Store) (g : GroupDb)
    → s.faults ≡ []
    → open_file n s.disk ≡ some g
    → (d : Disk GroupDb) × (grant n card s ≡ (ok tt, record s { disk = d }))
      × (open_file n d ≡ some (record g { perms = granted_by card g.perms }))
unfolding grant group_exec
grant_calm n [] s g calm file = (s.disk, refl, file)
grant_calm n (v ∷ vs) s g calm file =
    let g' : GroupDb = record g { perms = insert v.value (permissions_of v) g.perms } in
    let s' : Store = record s { disk = write_file n g' s.disk } in
    let (d, run, file') =
      grant_calm n vs s' g' calm (ground (arith, open_file-write_file n n g' s.disk)) in
    (d, ground (arith, run), file')

-- The database of a group before the card's fields are put in.
abbrev pub described : Bytes → GroupDb
described desc = record empty_db {
  config = insert flags (text flags) (insert description (text desc) []);
}

-- The state before those fields are put in.
abbrev prepared : Bytes → Bytes → Store → Store
prepared name desc s =
    let n : ℕ = suc s.groups.seq in
    let g : GroupDb = record empty_db { config = insert description (text desc) [] } in
    record s {
      groups = grown name tt s.groups;
      disk = write_file n (described desc) (write_file n g (write_file n empty_db s.disk));
    }

new_group_run :
    (name desc : Bytes) (card : List CardField) (s : Store) (d : Disk GroupDb)
    → IsTable s.groups
    → s.faults ≡ []
    → find_key name s.groups.rows ≡ none
    → open_file (suc s.groups.seq) s.disk ≡ none
    → grant (suc s.groups.seq) card (prepared name desc s)
      ≡ (ok tt, record (prepared name desc s) { disk = d })
    → new_group name desc card s
      ≡ (ok tt, register name (suc s.groups.seq) (record (prepared name desc s) { disk = d }))
unfolding new_group create_index group_exec
new_group_run name desc card s d valid calm new fresh run =
    let n : ℕ = suc s.groups.seq in
    let g : GroupDb = record empty_db { config = insert description (text desc) [] } in
    ground (
      arith,
      add-new s.groups name tt valid new,
      run,
      open_file-write_file n n empty_db s.disk,
      open_file-write_file n n g (write_file n empty_db s.disk),
    )

-- A new group, when the table of groups is well formed, no group has its name, no file has its number
-- and no call fails, has the next number and is open under it; its database holds the description, the
-- flags, and one row of permissions for each node that the card names.
pub new_group_new :
    (name desc : Bytes) (card : List CardField) (s : Store)
    → IsTable s.groups
    → s.faults ≡ []
    → find_key name s.groups.rows ≡ none
    → open_file (suc s.groups.seq) s.disk ≡ none
    → (s' : Store) × (new_group name desc card s ≡ (ok tt, s'))
      × (get_group_number name s' ≡ (ok (suc s.groups.seq), s'))
      × (lookup name s'.group_articles ≡ some (suc s.groups.seq))
      × (open_file (suc s.groups.seq) s'.disk
          ≡ some (record (described desc) { perms = granted_by card [] }))
unfolding get_group_number register
new_group_new name desc card s valid calm new fresh =
    let n : ℕ = suc s.groups.seq in
    let g : GroupDb = record empty_db { config = insert description (text desc) [] } in
    let (d, run, file) = grant_calm n card (prepared name desc s) (described desc) calm (
      ground (
        arith,
        open_file-write_file n n (described desc) (write_file n g (write_file n empty_db s.disk)),
      )) in
    (
      register name n (record (prepared name desc s) { disk = d }),
      new_group_run name desc card s d valid calm new fresh run,
      ground (arith, find_key-grown s.groups name tt new),
      lookup-insert_self name n s.group_articles,
      file,
    )

-- The name of a group that is listed is refused, and nothing changes, when no call fails.
pub new_group_again :
    (name desc : Bytes) (card : List CardField) (s : Store) (r : Row (Unit {0}))
    → s.faults ≡ []
    → find_key name s.groups.rows ≡ some r
    → new_group name desc card s ≡ (err (serror (site "newGroup" 441) (sentinel constraint)), s)
unfolding new_group insert_group
new_group_again name desc card s r calm old = ground (arith, add-old s.groups name tt r old)
