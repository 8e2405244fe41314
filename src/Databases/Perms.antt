-- ===== src/Databases/Perms.antt =====
-- `getPerms` of internal/databases/databases.go: what a node may do in a group.
pub mod Laws
use kothawoc.Prelude.{
  ℕ, Bytes, codes, beq, Bool, true, false, Option, none, some, List, [], ◌∷◌, if◌then◌else◌,
}
use kothawoc.Serror.{Error, sentinel, no_rows, Sentinel}
use kothawoc.Dict.{lookup}
use kothawoc.Table.{Row}
use kothawoc.Text.{split}
use kothawoc.Databases.State.{Store, Permissions, GroupDb}
use kothawoc.Databases.Monad.{
  Db, Outcome, ok, err, panic, io, pure, or_fail, group_query, either, if_open,
}

-- `PermissionsGroupT{}`
abbrev pub no_permissions : Permissions
no_permissions = record {
  read = false;
  reply = false;
  post = false;
  cancel = false;
  supersede = false;
}

abbrev pub all_permissions : Permissions
all_permissions = record { read = true; reply = true; post = true; cancel = true; supersede = true }

-- `strings.Split(…)[0]`; there is always a first part.
abbrev pub first_part : List Bytes → Bytes
first_part [] = []
first_part (p ∷ _) = p

-- The node that a group's name begins with.
unfoldable pub owner : Bytes → Bytes
owner group = first_part (split b'.' group)

-- `err == sql.ErrNoRows`
abbrev pub is_no_rows : Error → Bool
is_no_rows (sentinel no_rows) = true
is_no_rows _ = false

-- `QueryRow("SELECT id FROM groups;")`: is there any group?
abbrev any_group : List (Row (Unit {0})) → Option (Unit {0})
any_group [] = none
any_group (_ ∷ _) = some tt

-- `SELECT … FROM perms WHERE torid=?`
abbrev perms_of : Bytes → GroupDb → Option Permissions
perms_of torid g = lookup torid g.perms

-- The row that holds for every node is under this name.
abbrev pub everyone : Bytes
everyone = codes "group"

-- The row of the node, or else the row for every node; nil, `none`, where there is neither. After any
-- other error than `sql.ErrNoRows` the permissions are all false.
unfoldable pub perms_in : Bytes → ℕ → Db (Option Permissions)
perms_in torid n =
    either (group_query n (perms_of torid) no_rows)
      (λ e.
        if is_no_rows e
        then either (group_query n (perms_of everyone) no_rows) (λ _. pure none)
            (λ p. pure (some p))
        else pure (some no_permissions))
      (λ p. pure (some p))

-- `getPerms`; nil also where there are no groups at all.
unfoldable pub get_perms : Bytes → Bytes → Db (Option Permissions)
unfolding owner perms_in
get_perms torid group =
    if beq (owner group) torid
    then pure (some all_permissions)
    else either (io (λ s. or_fail no_rows (any_group s.groups.rows) s)) (λ _. pure none)
        (λ _. if_open group (pure (some no_permissions)) (perms_in torid))
