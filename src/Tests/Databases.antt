-- ===== src/Tests/Databases.antt =====
-- Runs of the model of internal/databases: articles, permissions, cancels and the server.
use kothawoc.Prelude.{
  codes, beq, true, false, none, some, [], ◌∷◌, All, ◌≡◌, ◌≢◌, ◌≤◌, ◌⊎◌, refl, sym, arith,
}
use mathlib.Core.Path.{subst}
use kothawoc.Prelude.Int.{pos}
use kothawoc.Serror.{sentinel, serror, syntax_error}
use kothawoc.Text.{parse_int, format_int, split}
use kothawoc.Header.{Header, get}
use kothawoc.Dict.{lookup, open_file}
use kothawoc.Table.{Row, find_key, above}
use kothawoc.Databases.State.{Store, Stored}
use kothawoc.Databases.Monad.{Outcome, ok, err, panic, site}
use kothawoc.Databases.Perms
use kothawoc.Databases.Perms.{all_permissions}
use kothawoc.Databases.Perms.Laws.{Granted, get_perms-Granted}
use kothawoc.Databases.Articles.{
  find_article, article_of, store_article, get_article_by_id, message_id, after_blank_line,
  get_next_article,
}
use kothawoc.Databases.Articles.Storing.{get_article_by_id-store_article}
use kothawoc.Databases.Articles.Feed.{get_next_article-IsNext}
use kothawoc.Databases.Cancel.{cancel_message, cancel_in, drop_entry}
use kothawoc.Databases.Cancel.Laws.{cancel_message_other, cancel_in_last}
use kothawoc.Tests.Data.{
  node, lounge, lounge_db, first_id, first_text, first_header, read_first, ignore_peer, readers,
}

perms_of_others : Perms.get_perms (codes "xyz") lounge node ≡ (ok (some readers), node)
unfolding Perms.get_perms beq split kothawoc.Databases.Monad.if_open lookup
    kothawoc.Databases.Monad.group_query open_file
perms_of_others = refl

abbrev second_header : Header
second_header =
    (codes "Message-Id", codes "<m2@abc>" ∷ [])
    ∷ (codes "X-Kothawoc-Signature", codes "s2" ∷ [])
    ∷ []

get_article_by_id-store_article_example :
    let (r, s) = store_article second_header (some first_text) node in
    (r ≡ ok 10)
    × (get_article_by_id read_first (get second_header message_id) s
        ≡ (ok (article_of (codes "hello") (first_header, codes "hello")), s))
    × (get_article_by_id read_first (format_int 10 10) s
        ≡ (ok (article_of (codes "hello") (first_header, codes "hello")), s))
unfolding get find_key parse_int after_blank_line beq lookup kothawoc.Header.canonical
    kothawoc.Text.has_prefix
get_article_by_id-store_article_example =
    get_article_by_id-store_article read_first second_header first_text node (codes "hello")
      (codes "hello") first_header (ground arith) refl refl refl (omega arith) refl refl

get_next_article-IsNext_example :
    (above (pos 4) 9 ≡ true)
    × All (λ (r : Row Stored). (above (pos 4) r.id ≡ false) ⊎ (9 ≤ r.id)) node.articles.rows
unfolding get_next_article kothawoc.Table.next_after parse_int format_int kothawoc.Table.find_id
    lookup beq kothawoc.Text.has_prefix
get_next_article-IsNext_example =
    get_next_article-IsNext read_first (pos 4) node
      (record { num = 9; article = article_of (codes "hello") (first_header, codes "hello") }) refl

first_found :
    get_article_by_id read_first first_id node
    ≡ (ok (article_of (codes "hello") (first_header, codes "hello")), node)
unfolding get_article_by_id parse_int find_key beq lookup kothawoc.Text.has_prefix
first_found = refl

sender : get first_header (codes "From") ≡ codes "abc"
unfolding get lookup beq kothawoc.Header.canonical
sender = refl

not_eve : codes "abc" ≢ codes "eve"
not_eve h = ground arith

-- The first article, on a node whose next call works and the one after it does not.
abbrev shaken : Store
shaken = record node { faults = false ∷ true ∷ [] }

abbrev first_row : Row Stored
first_row = record {
  id = 9;
  key = first_id;
  rest = record { signature = codes "s1"; refs = pos 1 };
}

get_perms-Granted_example : Granted (codes "xyz") lounge node readers
get_perms-Granted_example =
    get_perms-Granted (codes "xyz") lounge node node readers perms_of_others refl

cancel_message_other_example :
    let (result, s') = cancel_message read_first ignore_peer (codes "eve") first_id lounge shaken in
    (result ≢ ok tt) × (record s' { faults = [] } ≡ record shaken { faults = [] })
unfolding find_article parse_int find_key lookup beq
cancel_message_other_example =
    cancel_message_other read_first ignore_peer (codes "eve") first_id lounge first_text
      (codes "hello") first_header shaken first_row refl refl refl
      (subst (λ b. b ≢ codes "eve") (sym sender) not_eve)

cancel_in_last_example :
    (s' : Store) × (cancel_in read_first ignore_peer
        (article_of (codes "hello") (first_header, codes "hello"))
        first_id
        lounge
        node
      ≡ (err (serror (site "cancelMessage" 688) (sentinel syntax_error)), s'))
    × (open_file 7 s'.disk
        ≡ some (record lounge_db { articles = drop_entry first_id lounge_db.articles }))
    × (lookup (codes "s1") s'.files ≡ none)
    × (find_key first_id s'.articles.rows
        ≡ some (record {
          id = 9;
          key = first_id;
          rest = record { signature = codes "s1"; refs = pos 0 };
        }))
unfolding split beq lookup open_file find_key get kothawoc.Header.canonical
cancel_in_last_example =
    cancel_in_last read_first ignore_peer (article_of (codes "hello") (first_header, codes "hello"))
      first_id lounge node 7 lounge_db
      (record { id = 9; key = first_id; rest = record { signature = codes "s1"; refs = pos 1 } })
      (codes "lounge") first_text refl refl refl refl refl refl refl refl
