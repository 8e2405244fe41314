-- ===== src/Databases/Groups/Listing.antt =====
-- The numbers that `listArticles` sends.
use kothawoc.Prelude.{
  ℕ, suc, Bytes, Bool, true, false, not, ◌&&◌, some, List, [], ◌∷◌, ◌≡◌, arith, ◌==◌, if◌then◌else◌,
  map, Bool-cases, inl, inr, ap, sym,
}
use kothawoc.Prelude.Int.{ℤ, pos}
use kothawoc.Dict.{lookup, open_file}
use kothawoc.Databases.State.{Store, GroupDb, Entry}
use kothawoc.Databases.Monad.{ok, handle, group_query, if_open}
use kothawoc.Databases.Groups.{gt_ℤ, ids_between, ordered, list_articles}

-- How often a number occurs.
abbrev pub count : ℕ → List ℕ → ℕ
count i [] = 0
count i (j ∷ js) = let n = count i js in if i == j then suc n else n

abbrev pub in_range : ℤ → ℤ → ℕ → Bool
in_range from to i = not (gt_ℤ from (pos i)) && not (gt_ℤ (pos i) to)

abbrev pub numbers : List Entry → List ℕ
numbers = map (λ e. e.id)

-- One entry more: `b` tells whether it is sent, `r` whether the number asked for is in the range.
count-step :
    (b r : Bool) (i j : ℕ) (js : List ℕ) (c : ℕ)
    → (i ≡ j → b ≡ r)
    → count i js ≡ (if r then c else 0)
    → count i (if b then j ∷ js else js) ≡ (if r then (if i == j then suc c else c) else 0)
count-step b r i j js c same rest = elim (Bool-cases (i == j)) [
  | inl eq ↦ let br : b ≡ r = same (ground arith) in ground arith
  | inr ne ↦ ground arith
]

count-ids_between :
    (from to : ℤ) (i : ℕ) (es : List Entry)
    → count i (ids_between from to es) ≡ (if in_range from to i then count i (numbers es) else 0)
unfolding ids_between
count-ids_between from to i [] = ground arith
count-ids_between from to i (e ∷ es) =
    count-step (in_range from to e.id) (in_range from to i) i e.id (ids_between from to es)
      (count i (numbers es)) (λ eq. ap (in_range from to) (sym eq)) (count-ids_between from to i es)

-- In an open group whose database is there, when no call fails and `from` is not above `to`, every
-- number in the range is sent as often as it stands in the group's index, and no other is.
pub list_articles_range :
    (group : Bytes) (from to : ℤ) (i : ℕ) (s : Store) (n : ℕ) (g : GroupDb)
    → s.faults ≡ []
    → lookup group s.group_articles ≡ some n
    → open_file n s.disk ≡ some g
    → gt_ℤ from to ≡ false
    → (l : List ℕ) × (list_articles group from to s ≡ (ok l, s))
      × (count i l ≡ (if in_range from to i then count i (numbers g.articles) else 0))
unfolding list_articles ordered handle if_open group_query
list_articles_range group from to i s n g calm opened file le =
    (ids_between from to g.articles, ground arith, count-ids_between from to i g.articles)

-- In an open group whose database is there, when no call fails, a bound `from` that is not negative
-- and lies above `to` is not exchanged with it: only the article numbered `from` is sent, as often as
-- it stands in the group's index, instead of those from `to` up to `from`.
pub list_articles_reversed :
    (group : Bytes) (a : ℕ) (to : ℤ) (i : ℕ) (s : Store) (n : ℕ) (g : GroupDb)
    → s.faults ≡ []
    → lookup group s.group_articles ≡ some n
    → open_file n s.disk ≡ some g
    → gt_ℤ (pos a) to ≡ true
    → (l : List ℕ) × (list_articles group (pos a) to s ≡ (ok l, s))
      × (count i l ≡ (if i == a then count i (numbers g.articles) else 0))
unfolding list_articles ordered handle if_open group_query
list_articles_reversed group a to i s n g calm opened file gt = (
  ids_between (pos a) (pos a) g.articles,
  ground arith,
  ground (arith, count-ids_between (pos a) (pos a) i g.articles),
)
