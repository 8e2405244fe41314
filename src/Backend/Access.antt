-- ===== src/Backend/Access.antt =====
-- What the permissions of a group keep a reader from.
use kothawoc.Prelude.{ℕ, Bytes, false, true, Option, none, some, List, [], ◌∷◌, ◌≡◌, refl, arith}
use kothawoc.Prelude.Int.{ℤ}
use kothawoc.Header.{Header}
use kothawoc.Keytool.{Crypto}
use kothawoc.Dict.{lookup, open_file}
use kothawoc.Table.{Row}
use kothawoc.Databases.State.{Store, Stored, GroupDb, Permissions}
use kothawoc.Databases.Articles.{find_article, has_entry, after_blank_line, article_of}
use kothawoc.Databases.Articles.Storing.{found}
use kothawoc.Databases.Monad.{Db}
use kothawoc.Databases.Perms.Laws.{expected, get_perms-expected}
use kothawoc.Databases.Server.{serve, answer, answer_perms}
use kothawoc.Databases.Client
use kothawoc.Databases.Client.{returned, crashed, only_value, drop_error}
use kothawoc.Backend.{Session}
use kothawoc.Backend.Reading.{
  crash, get_group, get_article, get_article_with_no_group, get_articles, fetch,
}

module _ (c : Crypto) (read_message : Bytes → Option (Header × Bytes))
    (remove_peer : Bytes → Db (Unit {0})) (session : Session) (s : Store)
    (calm : s.faults ≡ []) where
  permissions :
      (group : Bytes)
      → Client.get_perms c read_message remove_peer session.id group s
        ≡ (returned (expected session.id group s) none, s)
  unfolding Client.get_perms only_value serve answer_perms
  permissions group = rw (get_perms-expected session.id group s calm) refl

  -- When no call fails, a node with Read in one open group gets every stored article whose file can be read
  -- by asking for it in that group, though the group's index does not hold it; and
  -- `GetArticleWithNoGroup` gives the article to every node, without any permission.
  pub get_article_any_group :
      (group id raw body text : Bytes) (hd : Header) (g : GroupDb) (n : ℕ) (p : Permissions)
      (r : Row Stored)
      → lookup group s.group_articles ≡ some n
      → open_file n s.disk ≡ some g
      → expected session.id group s ≡ some p
      → p.read ≡ true
      → has_entry r.key g.articles ≡ false
      → find_article id s.articles.rows ≡ some r
      → lookup r.rest.signature s.files ≡ some raw
      → after_blank_line raw ≡ some body
      → read_message raw ≡ some (hd, text)
      → (get_article c read_message remove_peer session group id s
          ≡ (returned (some (article_of body (hd, text))) none, s))
        × (get_article_with_no_group c read_message remove_peer session id s
            ≡ (returned (some (article_of body (hd, text))) none, s))
  unfolding get_article get_article_with_no_group Client.get_article_by_id serve answer drop_error
  get_article_any_group group id raw body text hd g n p r opened file given reads absent row stored
        blank parsed =
      let it = found read_message id raw body text hd s r calm row stored blank parsed in
      (ground (arith, permissions group, given, reads, it), ground (arith, it))

  -- When no call fails, in a group where the session's node has nil permissions, `GetGroup` shows the
  -- group, but `GetArticle` of any article panics, and so does what `GetArticles` starts when its list of
  -- numbers comes and is not empty.
  pub nil_permissions :
      (group id : Bytes) (from to : ℤ) (n : ℕ) (ns : List ℕ)
      → expected session.id group s ≡ none
      → Client.list_articles c read_message remove_peer group from to s
        ≡ (returned (some (n ∷ ns)) none, s)
      → (get_group c read_message remove_peer session group s
          ≡ Client.get_group c read_message remove_peer session.id group s)
        × (get_article c read_message remove_peer session group id s ≡ (crashed, s))
        × (get_articles c read_message remove_peer session group from to s
            ≡ (returned (some crash) none, s))
  unfolding get_group get_article get_articles fetch
  nil_permissions group id from to n ns given listed = (
    ground (arith, permissions group, given),
    ground (arith, permissions group, given),
    ground (arith, permissions group, given, listed),
  )
