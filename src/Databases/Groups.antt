-- ===== src/Databases/Groups.antt =====
-- The groups of internal/databases/databases.go: creating one, listing and describing them, and the
-- numbers of their articles.
pub mod Creating
pub mod Listing
use kothawoc.Prelude.{
  ℕ, String, Bytes, codes, beq, Bool, true, false, not, ◌&&◌, Option, none, some, List, [], ◌∷◌,
  map, max, length, leb, ltb, if◌then◌else◌,
}
use kothawoc.Prelude.Int.{ℤ, pos, negsuc}
use kothawoc.Serror.{Error, sentinel, serror, no_rows, constraint, no_such_group}
use kothawoc.Dict.{Dict, lookup, insert, open_file, write_file}
use kothawoc.Table.{Table, Row, add, find_key, above}
use kothawoc.Text.{format_int}
use kothawoc.Databases.State.{Store, GroupDb, Permissions, Entry, Value, text}
use kothawoc.Databases.Monad.{
  Db, Outcome, ok, err, panic, ◌>>=◌, ◌>>◌, pure, fail, io, or_fail, modify, traced, on_error, site,
  handle, group_query, group_exec, either, if_open,
}
use kothawoc.Databases.Perms.{get_perms}
use kothawoc.Databases.Config.{as_bytes}

-- A value of the card's field `X-KW-PERMS`, with `Params.Get` of go-vcard.
pub record CardField : Type 0 where
  pub value : Bytes
  pub param : Bytes → Bytes

-- `INSERT INTO groups(name) VALUES(?)`, with the new row's number.
unfoldable pub insert_group : Bytes → Db ℕ
insert_group name = io (λ s. elim (add name tt s.groups) [
  | none ↦ (err (sentinel constraint), s)
  | some (n, t) ↦ (ok n, record s { groups = t })
])

abbrev pub empty_db : GroupDb
empty_db = record { articles = []; subscriptions = []; config = []; perms = [] }

-- `createArticleIndexDB`: the tables are made where they are not there yet.
unfoldable pub create_index : ℕ → Db (Unit {0})
create_index n = io (λ s. elim (open_file n s.disk) [
  | none ↦ (ok tt, record s { disk = write_file n empty_db s.disk })
  | some _ ↦ (ok tt, s)
])

-- `INSERT OR REPLACE INTO config` on a group's database.
abbrev pub set_config : Bytes → Bytes → GroupDb → Option GroupDb
set_config key val g = some (record g { config = insert key (text val) g.config })

abbrev pub is_true : Bytes → Bool
is_true b = beq b (codes "true")

-- The row that a field of the card asks for.
unfoldable pub permissions_of : CardField → Permissions
permissions_of v = record {
  read = is_true (v.param (codes "READ"));
  reply = is_true (v.param (codes "REPLY"));
  post = is_true (v.param (codes "POST"));
  cancel = is_true (v.param (codes "CANCEL"));
  supersede = is_true (v.param (codes "SUPERSEDE"));
}

abbrev set_perms : CardField → GroupDb → Option GroupDb
set_perms v g = some (record g { perms = insert v.value (permissions_of v) g.perms })

-- The loop over `card["X-KW-PERMS"]`.
unfoldable pub grant : ℕ → List CardField → Db (Unit {0})
unfolding permissions_of
grant n [] = pure tt
grant n (v ∷ vs) =
    traced (site "newGroup" 482) (group_exec n (set_perms v) constraint) >> grant n vs

abbrev pub description : Bytes
description = codes "description"

abbrev pub flags : Bytes
flags = codes "flags"

-- The three maps of open groups.
unfoldable pub register : Bytes → ℕ → Store → Store
register name n s = record s {
  group_articles = insert name n s.group_articles;
  name2int = insert name n s.name2int;
  name2hex = insert name (format_int 16 n) s.name2hex;
}

-- `newGroup`
unfoldable pub new_group : Bytes → Bytes → List CardField → Db (Unit {0})
unfolding insert_group create_index grant register
new_group name desc card = traced (site "newGroup" 441) (insert_group name) >>= λ id.
    traced (site "newGroup" 447) (io (pure id)) >>= λ n.
    traced (site "newGroup" 455) (io (pure tt))
    >> (traced (site "newGroup" 460) (create_index n)
        >> (traced (site "newGroup" 465) (group_exec n (set_config description desc) constraint)
            >> (traced (site "newGroup" 469) (group_exec n (set_config flags flags) constraint)
                >> (grant n card >> modify (register name n)))))

-- `nntp.PostingStatus`
pub data Posting : Type 0 where
  permitted not_permitted moderated : Posting

-- `nntp.Group`
pub record Group : Type 0 where
  pub name : Bytes
  pub description : Bytes
  pub count : ℕ
  pub low : ℕ
  pub high : ℕ
  pub posting : Posting

unfoldable pub posting_of : Bytes → Posting
posting_of f =
    if beq f (codes "m") then moderated else if beq f (codes "n") then not_permitted else permitted

-- `COALESCE((SELECT id FROM articles ORDER BY id DESC LIMIT 1), 0)`
unfoldable pub highest : List Entry → ℕ
highest [] = 0
highest (e ∷ es) = max e.id (highest es)

-- `COALESCE((SELECT id FROM articles ORDER BY id ASC LIMIT 1), 0)`
unfoldable pub lowest : List Entry → ℕ
lowest [] = 0
lowest (e ∷ []) = e.id
lowest (e ∷ (f ∷ es)) = let m = lowest (f ∷ es) in if leb e.id m then e.id else m

-- `perms != nil && !perms.Read`
abbrev pub hidden : Option Permissions → Bool
hidden none = false
hidden (some p) = not p.read

abbrev read_text : Bytes → GroupDb → Option Bytes
read_text key g = elim (lookup key g.config) [ none ↦ none | some v ↦ some (as_bytes v) ]

abbrev describe : Bytes → Bytes → Bytes → List Entry → Group
describe name desc f es = record {
  name = name;
  description = desc;
  count = length es;
  low = lowest es;
  high = highest es;
  posting = posting_of f;
}

abbrev no_group : {A : Type 0} → Error → Db A
no_group _ = fail (sentinel no_such_group)

-- The queries of `getGroup` on an open group.
unfoldable pub query_group : Bytes → ℕ → Db Group
unfolding lowest highest posting_of
query_group name n = on_error (group_query n (read_text description) no_rows) no_group >>= λ desc.
    on_error (group_query n (read_text flags) no_rows) no_group >>= λ f.
    group_query n (λ g. some (describe name desc f g.articles)) no_rows

-- `getGroup` for the node that the session is for.
unfoldable pub get_group : Bytes → Bytes → Db Group
unfolding get_perms query_group
get_group session_id name = get_perms session_id name >>= λ perms.
    if hidden perms
    then fail (sentinel no_such_group)
    else if_open name (fail (sentinel no_such_group)) (query_group name)

-- The goroutine of `listGroups`: the groups that it sends, and whether it closes the channel.
unfoldable pub send_groups : Bytes → List (Row (Unit {0})) → Db (List Group × Bool)
unfolding get_group
send_groups session_id [] = pure ([], true)
send_groups session_id (r ∷ rows) = get_perms session_id r.key >>= λ perms.
    if hidden perms
    then send_groups session_id rows
    else either (get_group session_id r.key) (λ _. pure ([], false))
        (λ g. send_groups session_id rows >>= λ (gs, closed). pure (g ∷ gs, closed))

-- `listGroups`; the goroutine runs to its end before the next command.
unfoldable pub list_groups : Bytes → Db (List Group × Bool)
unfolding send_groups
list_groups session_id =
    traced (site "listGroups" 881) (io (λ s. (ok s.groups.rows, s))) >>= λ rows.
    send_groups session_id rows

-- `from > to`
abbrev pub gt_ℤ : ℤ → ℤ → Bool
gt_ℤ (pos a) (pos b) = ltb b a
gt_ℤ (pos a) (negsuc b) = true
gt_ℤ (negsuc a) (pos b) = false
gt_ℤ (negsuc a) (negsuc b) = ltb a b

-- `SELECT id FROM articles WHERE id>=? and id<=?`
unfoldable pub ids_between : ℤ → ℤ → List Entry → List ℕ
ids_between from to [] = []
ids_between from to (e ∷ es) =
    let rest = ids_between from to es in
    if not (gt_ℤ from (pos e.id)) && not (gt_ℤ (pos e.id) to) then e.id ∷ rest else rest

-- The exchange at the head of `listArticles`: `a := from; to = from; from = a`.
unfoldable pub ordered : ℤ → ℤ → ℤ × ℤ
ordered from to =
    if gt_ℤ from to then (let a : ℤ = from in let to' : ℤ = from in (a, to')) else (from, to)

-- `listArticles`; its session is not used.
unfoldable pub list_articles : Bytes → ℤ → ℤ → Db (List ℕ)
unfolding ids_between ordered
list_articles group from to =
    let (first, last) = ordered from to in
    handle group (λ n. group_query n (λ g. some (ids_between first last g.articles)) no_rows)

-- `getGroupNumber`
unfoldable pub get_group_number : Bytes → Db ℕ
get_group_number group =
    io (λ s. or_fail no_rows (find_key group s.groups.rows) s) >>= λ r. pure r.id
