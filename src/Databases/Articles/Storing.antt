-- ===== src/Databases/Articles/Storing.antt =====
-- Storing an article, and what is found afterwards.
use kothawoc.Prelude.{suc, Bytes, Option, none, some, List, [], ◌≡◌, ◌<◌, refl, arith, ◌^◌}
use kothawoc.Prelude.Int.{pos}
use kothawoc.Serror.{sentinel, serror, constraint}
use kothawoc.Text.{parse_int, format_int}
use kothawoc.Text.Decimal.{parse_int-format_int}
use kothawoc.Header.{Header, get}
use kothawoc.Dict.{lookup, insert, lookup-insert_self}
use kothawoc.Table.{Row, find_key}
use kothawoc.Table.Laws.{
  IsTable, grown, add-new, add-old, find_key-grown, find_id-find_key, grown-IsTable,
}
use kothawoc.Databases.State.{Store, Stored}
use kothawoc.Databases.Monad.{ok, err, site}
use kothawoc.Databases.Articles.{
  message_id, signature_header, store_article, find_article, after_blank_line,
  get_article_by_signature, get_article_by_id, article_of,
}

abbrev fresh_row : Bytes → Stored
fresh_row signature = record { signature = signature; refs = pos 0 }

-- The state after an article is stored.
abbrev pub stored : Header → Bytes → Store → Store
stored h raw s = record s {
  articles = grown (get h message_id) (fresh_row (get h signature_header)) s.articles;
  files = insert (get h signature_header) raw s.files;
}

-- A message with a new id that is stored in a well-formed table, when no call fails, gets the number
-- after the last one that was given out, and the state changes by its row and its file.
pub store_article_new :
    (h : Header) (raw : Bytes) (s : Store)
    → IsTable s.articles
    → s.faults ≡ []
    → find_key (get h message_id) s.articles.rows ≡ none
    → store_article h (some raw) s ≡ (ok (suc s.articles.seq), stored h raw s)
unfolding store_article
store_article_new h raw s valid calm new =
    ground
      (arith, add-new s.articles (get h message_id) (fresh_row (get h signature_header)) valid new)

-- A message-id that is there already is refused, and nothing changes.
pub store_article_again :
    (h : Header) (raw : Option Bytes) (s : Store) (r : Row Stored)
    → s.faults ≡ []
    → find_key (get h message_id) s.articles.rows ≡ some r
    → store_article h raw s ≡ (err (serror (site "storeArticle" 1111) (sentinel constraint)), s)
unfolding store_article
store_article_again h raw s r calm old =
    ground (arith, add-old s.articles (get h message_id) (fresh_row (get h signature_header)) r old)

module _ (h : Header) (s : Store) (valid : IsTable s.articles)
    (new : find_key (get h message_id) s.articles.rows ≡ none) where
  new_row : Row Stored
  new_row = record {
    id = suc s.articles.seq;
    key = get h message_id;
    rest = fresh_row (get h signature_header);
  }

  new_rows : List (Row Stored)
  new_rows = (grown (get h message_id) (fresh_row (get h signature_header)) s.articles).rows

  find_key-new : find_key (get h message_id) new_rows ≡ some new_row
  unfolding new_row new_rows
  find_key-new =
      find_key-grown s.articles (get h message_id) (fresh_row (get h signature_header)) new

  find_article_by_key :
      parse_int (get h message_id) ≡ none → find_article (get h message_id) new_rows ≡ some new_row
  unfolding find_article
  find_article_by_key text = rw (text, find_article) find_key-new

  find_article_by_number :
      suc s.articles.seq < 2 ^ 63
      → find_article (format_int 10 (suc s.articles.seq)) new_rows ≡ some new_row
  unfolding find_article new_rows new_row
  find_article_by_number small =
      rw (parse_int-format_int _ small, find_article)
        (find_id-find_key (get h message_id) new_rows new_row
          (grown-IsTable s.articles _ _ valid new).distinct find_key-new).0

module _ (read_message : Bytes → Option (Header × Bytes)) where
  -- A row whose file can be read gives its article.
  pub found :
      (id raw body text : Bytes) (hd : Header) (s : Store) (r : Row Stored)
      → s.faults ≡ []
      → find_article id s.articles.rows ≡ some r
      → lookup r.rest.signature s.files ≡ some raw
      → after_blank_line raw ≡ some body
      → read_message raw ≡ some (hd, text)
      → get_article_by_id read_message id s ≡ (ok (article_of body (hd, text)), s)
  unfolding get_article_by_id get_article_by_signature
  found id raw body text hd s r calm row file blank parsed = ground arith

  -- A message that is stored in a well-formed table, when no call fails, its id is new and is no
  -- number, the number that it gets is below 2^63, and its text has a blank line and is read by
  -- `net/mail`, is found again under its id and under its number, as the article that its text was
  -- written for.
  pub get_article_by_id-store_article :
      (h : Header) (raw : Bytes) (s : Store) (body text : Bytes) (hd : Header)
      → IsTable s.articles
      → s.faults ≡ []
      → find_key (get h message_id) s.articles.rows ≡ none
      → parse_int (get h message_id) ≡ none
      → suc s.articles.seq < 2 ^ 63
      → after_blank_line raw ≡ some body
      → read_message raw ≡ some (hd, text)
      → let (r, s') = store_article h (some raw) s in
        (r ≡ ok (suc s.articles.seq))
        × (get_article_by_id read_message (get h message_id) s'
            ≡ (ok (article_of body (hd, text)), s'))
        × (get_article_by_id read_message (format_int 10 (suc s.articles.seq)) s'
            ≡ (ok (article_of body (hd, text)), s'))
  unfolding new_row new_rows
  get_article_by_id-store_article h raw s body text hd valid calm new word small blank parsed =
      let file = lookup-insert_self (get h signature_header) raw s.files in
      let mid = get h message_id in
      let by_key =
        found mid raw body text hd (stored h raw s) (new_row h s valid new) calm
          (find_article_by_key h s valid new word) file blank parsed in
      let by_number =
        found (format_int 10 (suc s.articles.seq)) raw body text hd (stored h raw s)
          (new_row h s valid new) calm (find_article_by_number h s valid new small) file blank
          parsed in
      rw (store_article_new h raw s valid calm new) (refl, by_key, by_number)
