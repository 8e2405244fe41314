-- ===== src/Databases/Perms/Laws.antt =====
-- What `getPerms` grants, when no call of SQLite fails.
use kothawoc.Prelude.{
  ℕ, List, false, ◌⊎◌, refl, Bool, Bool-cases, Option-cases, inl, inr, true, ◌||◌, beq→eq, Bytes,
  beq, eq→beq, Option, none, some, [], ◌∷◌, ◌≡◌, arith, if◌then◌else◌,
}
use kothawoc.Dict.{lookup, open_file}
use kothawoc.Databases.State.{Store, Permissions, GroupDb}
use kothawoc.Databases.Monad.{ok, if_open, group_query}
use kothawoc.Databases.Perms.{all_permissions, no_permissions, owner, everyone, get_perms, perms_in}

-- The node whose identifier begins the group's name may do everything in it, whatever the state and
-- whatever fails.
pub get_perms-owner :
    (torid group : Bytes) (s : Store)
    → owner group ≡ torid
    → get_perms torid group s ≡ (ok (some all_permissions), s)
unfolding get_perms
get_perms-owner torid group s h = ground (arith, eq→beq (owner group) torid h)

-- The permissions that the tables give: the node's own row, or else the row for every node.
abbrev pub granted : Bytes → GroupDb → Option Permissions
granted torid g = elim (lookup torid g.perms) [ some p ↦ some p | none ↦ lookup everyone g.perms ]

-- The answer of the tables, by cases: everything for the owner, nil where there are no groups, nothing
-- in a group that is not open or has no tables, and otherwise what the group's table grants.
abbrev pub expected : Bytes → Bytes → Store → Option Permissions
expected torid group s =
    if beq (owner group) torid then some all_permissions else elim s.groups.rows [
      | [] ↦ none
      | _ ∷ _ ↦ elim (lookup group s.group_articles) [
        | none ↦ some no_permissions
        | some n ↦ elim (open_file n s.disk) [
          | none ↦ some no_permissions
          | some g ↦ granted torid g
        ]
      ]
    ]

-- What `getPerms` may rely on when it allows something: the group's name, the node's own row in the table
-- of an open group, or, where there is none, the row for every node.
pub data Granted (torid group : Bytes) (s : Store) (p : Permissions) : Type 0 where
  as_owner : owner group ≡ torid → Granted torid group s p
  by_row :
      (n : ℕ) (g : GroupDb)
      → lookup group s.group_articles ≡ some n
      → open_file n s.disk ≡ some g
      → lookup torid g.perms ≡ some p
      → Granted torid group s p
  for_everyone :
      (n : ℕ) (g : GroupDb)
      → lookup group s.group_articles ≡ some n
      → open_file n s.disk ≡ some g
      → lookup torid g.perms ≡ none
      → lookup everyone g.perms ≡ some p
      → Granted torid group s p

-- Does it allow anything?
abbrev pub allows : Permissions → Bool
allows p = p.read || (p.reply || (p.post || (p.cancel || p.supersede)))

-- What the rows of a group's table give.
abbrev FromRows : Bytes → GroupDb → Permissions → Type 0
FromRows torid g p =
    (lookup torid g.perms ≡ some p)
    ⊎ ((lookup torid g.perms ≡ none) × (lookup everyone g.perms ≡ some p))

perms_in-FromRows :
    (torid : Bytes) (n : ℕ) (g : GroupDb) (s s' : Store) (p : Permissions)
    → open_file n s.disk ≡ some g
    → perms_in torid n s ≡ (ok (some p), s')
    → allows p ≡ true
    → FromRows torid g p
unfolding perms_in group_query
perms_in-FromRows torid n g s s' p file h some_right = elim (Option-cases (lookup torid g.perms)) [
  | inr (q, row) ↦ inl (ground (arith, h, some_right, file, row))
  | inl no_row ↦ inr (no_row, ground (arith, h, some_right, file, no_row))
]

-- In a group with tables, past the test for groups.
perms_in-file :
    (torid : Bytes) (n : ℕ) (s s' : Store) (p : Permissions)
    → perms_in torid n s ≡ (ok (some p), s')
    → allows p ≡ true
    → (g : GroupDb) × (open_file n s.disk ≡ some g)
unfolding perms_in group_query
perms_in-file torid n s s' p h some_right = elim (Option-cases (open_file n s.disk)) [
  | inr (g, file) ↦ (g, file)
  | inl missing ↦ absurd (ground (arith, h, some_right, missing))
]

-- Where `getPerms` looks at the rows of a group.
get_perms-perms_in :
    (torid group : Bytes) (s s' : Store) (p : Permissions)
    → get_perms torid group s ≡ (ok (some p), s')
    → allows p ≡ true
    → beq (owner group) torid ≡ false
    → (n : ℕ) × (fs : List Bool) × (lookup group s.group_articles ≡ some n)
      × (perms_in torid n (record s { faults = fs }) ≡ (ok (some p), s'))
unfolding get_perms if_open
get_perms-perms_in torid group s s' p h some_right other =
    elim (Option-cases (lookup group s.group_articles)) [
      | inl closed ↦ absurd (ground (arith, h, some_right, other, closed))
      | inr (n, opened) ↦ go n opened s.faults refl
    ]
  where
    go :
        (n : ℕ)
        → lookup group s.group_articles ≡ some n
        → (fs : List Bool) → s.faults ≡ fs
        → (m : ℕ) × (fs' : List Bool) × (lookup group s.group_articles ≡ some m)
          × (perms_in torid m (record s { faults = fs' }) ≡ (ok (some p), s'))
    go n opened [] f = (n, [], opened, ground (arith, h, other, opened, f))
    go n opened (true ∷ fs) f = absurd (ground (arith, h, other, opened, f))
    go n opened (false ∷ fs) f = (n, fs, opened, ground (arith, h, other, opened, f))

-- Whichever calls of SQLite fail, `getPerms` allows nothing but what the tables grant: to the node that the
-- group's name begins with, or in the node's own row of an open group, or, where it has no row, in
-- the row for every node.
pub get_perms-Granted :
    (torid group : Bytes) (s s' : Store) (p : Permissions)
    → get_perms torid group s ≡ (ok (some p), s')
    → allows p ≡ true
    → Granted torid group s p
get_perms-Granted torid group s s' p h some_right = elim (Bool-cases (beq (owner group) torid)) [
  | inl mine ↦ as_owner (beq→eq (owner group) torid mine)
  | inr other ↦
      let (n, fs, opened, rows) = get_perms-perms_in torid group s s' p h some_right other in
      let (g, file) = perms_in-file torid n (record s { faults = fs }) s' p rows some_right in
      elim (perms_in-FromRows torid n g (record s { faults = fs }) s' p file rows some_right) [
        | inl own ↦ by_row n g opened file own
        | inr (no_row, row) ↦ for_everyone n g opened file no_row row
      ]
]

-- When no call fails, `getPerms` gives the node's own row, or else the row for every node, in a group
-- that is open, with the exceptions that `expected` lists; it changes nothing.
pub get_perms-expected :
    (torid group : Bytes) (s : Store)
    → s.faults ≡ []
    → get_perms torid group s ≡ (ok (expected torid group s), s)
unfolding get_perms perms_in if_open group_query
get_perms-expected torid group s calm = ground arith
