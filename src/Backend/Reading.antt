-- ===== src/Backend/Reading.antt =====
-- The methods of `NntpBackend` in internal/nntpbackend/nntpbackend.go that read groups and articles.
use kothawoc.Prelude.{ℕ, Bytes, Bool, true, false, Option, none, some, List, [], ◌∷◌, if◌then◌else◌}
use kothawoc.Prelude.Int.{ℤ}
use kothawoc.Serror.{sentinel, no_such_group, invalid_article_number}
use kothawoc.Header.{Header}
use kothawoc.Text.{format_int}
use kothawoc.Keytool.{Crypto}
use kothawoc.Databases.State.{Store}
use kothawoc.Databases.Monad.{Db}
use kothawoc.Databases.Articles.{Article}
use kothawoc.Databases.Groups.{Group, hidden}
use kothawoc.Databases.Client
use kothawoc.Databases.Client.{Returned, returned, crashed}
use kothawoc.Backend.{Session}

-- What the goroutine of `GetArticles` sends, and whether it closes the channel; `crash` is its panic.
pub data Stream : Type 0 where
  sent : List (ℕ × Option Article) → Bool → Stream
  crash : Stream

abbrev is_empty : List ℕ → Bool
is_empty [] = true
is_empty (_ ∷ _) = false

abbrev in_front : ℕ × Option Article → Stream → Stream
in_front a (sent rest closed) = sent (a ∷ rest) closed
in_front a crash = crash

module _ (c : Crypto) (read_message : Bytes → Option (Header × Bytes))
    (remove_peer : Bytes → Db (Unit {0})) where
  -- `ListGroups`
  unfoldable pub list_groups : Session → Store → Returned (Option (List Group × Bool)) × Store
  list_groups session s = Client.list_groups c read_message remove_peer session.id s

  -- `GetGroup`
  unfoldable pub get_group : Session → Bytes → Store → Returned (Option Group) × Store
  get_group session name s =
      let (r, s') = Client.get_perms c read_message remove_peer session.id name s in
      elim r [
        | crashed ↦ (crashed, s')
        | returned perms _ ↦
            if hidden perms
            then (returned none (some (sentinel no_such_group)), s')
            else Client.get_group c read_message remove_peer session.id name s'
      ]

  -- `GetArticleWithNoGroup`
  unfoldable pub get_article_with_no_group :
      Session → Bytes → Store → Returned (Option Article) × Store
  get_article_with_no_group session id s = Client.get_article_by_id c read_message remove_peer id s

  -- `GetArticle`; permissions that are nil panic.
  unfoldable pub get_article : Session → Bytes → Bytes → Store → Returned (Option Article) × Store
  get_article session group id s =
      let (r, s') = Client.get_perms c read_message remove_peer session.id group s in
      elim r [
        | crashed ↦ (crashed, s')
        | returned perms _ ↦ elim perms [
          | none ↦ (crashed, s')
          | some p ↦
              if p.read
              then Client.get_article_by_id c read_message remove_peer id s'
              else (returned none (some (sentinel invalid_article_number)), s')
        ]
      ]

  -- The loop over the list.
  unfoldable pub fetch : Session → Bytes → List ℕ → Store → Stream × Store
  unfolding get_article
  fetch session group [] s = (sent [] true, s)
  fetch session group (id ∷ ids) s =
      let (r, s') = get_article session group (format_int 10 id) s in
      elim r [
        | crashed ↦ (crash, s')
        | returned article e ↦ elim e [
          | some _ ↦ (sent [] false, s')
          | none ↦
              (let (rest, s'') = fetch session group ids s' in (in_front (id, article) rest, s''))
        ]
      ]

  -- `GetArticles`: the goroutine waits for ever on a list that is nil, and leaves at the first number if
  -- there was an error.
  unfoldable pub get_articles : Session → Bytes → ℤ → ℤ → Store → Returned (Option Stream) × Store
  unfolding fetch
  get_articles session group from to s =
      let (r, s') = Client.get_perms c read_message remove_peer session.id group s in
      elim r [
        | crashed ↦ (crashed, s')
        | returned perms _ ↦
            if hidden perms
            then (returned none (some (sentinel invalid_article_number)), s')
            else let (list, s'') =
                Client.list_articles c read_message remove_peer group from to s' in
              elim list [
                | crashed ↦ (crashed, s'')
                | returned ids e ↦ elim ids [
                  | none ↦ (returned (some (sent [] false)) none, s'')
                  | some ns ↦ elim e [
                    | none ↦
                        let (stream, s3) = fetch session group ns s'' in
                        (returned (some stream) none, s3)
                    | some _ ↦ (returned (some (sent [] (is_empty ns))) none, s'')
                  ]
                ]
              ]
      ]
