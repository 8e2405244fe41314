-- ===== src/Databases/Cancel/Laws.antt =====
-- Who may cancel a message, and what is left of it.
use kothawoc.Prelude.{
  ℕ, Bytes, codes, beq, beq_iff, false, Option, none, some, List, [], ◌∷◌, ◌≡◌, ◌≢◌, refl, arith,
  get_elem?,
}
use kothawoc.Prelude.Int.{pos, decr}
use kothawoc.Serror.{sentinel, serror, syntax_error}
use kothawoc.Header.{Header, get}
use kothawoc.Dict.{Dict, lookup, open_file, write_file, open_file-write_file}
use kothawoc.Text.{split}
use kothawoc.Table.{Row, find_key, change}
use kothawoc.Databases.State.{Store, Stored, GroupDb}
use kothawoc.Databases.Monad.{Db, ok, err, site, handle, if_open, group_exec}
use kothawoc.Databases.Articles.{
  Article, find_article, get_article_by_signature, get_article_by_id, update_refs, signature_header,
}
use kothawoc.Databases.Cancel.{
  cancel_message, cancel_found, cancel_in, leave_peer, erase_article, remove_file, remove_key,
  drop_entry,
}

lookup-remove_key : (k : Bytes) (d : Dict Bytes) → lookup k (remove_key k d) ≡ none
unfolding lookup remove_key
lookup-remove_key k [] = refl
lookup-remove_key k ((j, v) ∷ d) = ground (arith, lookup-remove_key k d)

find_key-change :
    (f : Stored → Stored) (k : Bytes) (rs : List (Row Stored)) (r : Row Stored)
    → find_key k rs ≡ some r
    → find_key k (change f k rs) ≡ some (record r { rest = f r.rest })
unfolding find_key change
find_key-change f k [] r h = cc
find_key-change f k (q ∷ rs) r h = ground (arith, find_key-change f k rs r)

module _ (read_message : Bytes → Option (Header × Bytes))
    (remove_peer : Bytes → Db (Unit {0})) where
  -- A cancel message from anyone but the sender of the stored article, whose file `net/mail` reads, never
  -- succeeds, and whichever calls fail it changes nothing: the tables, the groups, the files and the
  -- settings are as they were.
  pub cancel_message_other :
      (from id newsgroups raw text : Bytes) (hd : Header) (s : Store) (r : Row Stored)
      → find_article id s.articles.rows ≡ some r
      → lookup r.rest.signature s.files ≡ some raw
      → read_message raw ≡ some (hd, text)
      → get hd (codes "From") ≢ from
      → let (result, s') = cancel_message read_message remove_peer from id newsgroups s in
        (result ≢ ok tt) × (record s' { faults = [] } ≡ record s { faults = [] })
  unfolding cancel_message cancel_found get_article_by_id get_article_by_signature
  cancel_message_other from id newsgroups raw text hd s r row file parsed other =
      let wrong = beq_iff (get hd (codes "From")) from in
      (
        λ won. ground (arith, won, row, file, parsed, other, wrong),
        ground (arith, row, file, parsed, other, wrong),
      )

  -- A cancel in an open group whose name's second part is there and is not `peers`, when no call
  -- fails, the article's row says that one group holds it, and its file is there, takes the message
  -- out of the group's index and its file off the disk, and ends in an error: the row of the article
  -- stays, with no group left that holds it.
  pub cancel_in_last :
      (a : Article) (id grp : Bytes) (s : Store) (n : ℕ) (g : GroupDb) (r : Row Stored)
      (second body : Bytes)
      → s.faults ≡ []
      → get_elem? (split b'.' grp) 1 ≡ some second
      → beq second (codes "peers") ≡ false
      → lookup grp s.group_articles ≡ some n
      → open_file n s.disk ≡ some g
      → find_key id s.articles.rows ≡ some r
      → r.rest.refs ≡ pos 1
      → lookup (get a.header signature_header) s.files ≡ some body
      → (s' : Store) × (cancel_in read_message remove_peer a id grp s
          ≡ (err (serror (site "cancelMessage" 688) (sentinel syntax_error)), s'))
        × (open_file n s'.disk ≡ some (record g { articles = drop_entry id g.articles }))
        × (lookup (get a.header signature_header) s'.files ≡ none)
        × (find_key id s'.articles.rows ≡ some (record r { rest = record r.rest { refs = pos 0 } }))
  unfolding cancel_in leave_peer handle if_open group_exec update_refs erase_article remove_file
  cancel_in_last a id grp s n g r second body calm second_part other opened file row one message' =
      (
        record s {
          disk = write_file n (record g { articles = drop_entry id g.articles }) s.disk;
          articles = record s.articles {
            rows = change (λ (x : Stored). record x { refs = decr x.refs }) id s.articles.rows;
          };
          files = remove_key (get a.header signature_header) s.files;
        },
        ground arith,
        ground (
          arith,
          open_file-write_file n n (record g { articles = drop_entry id g.articles }) s.disk,
        ),
        lookup-remove_key (get a.header signature_header) s.files,
        ground (
          arith,
          find_key-change (λ (x : Stored). record x { refs = decr x.refs }) id s.articles.rows r
              row,
        ),
      )

  -- Erasing an article never ends well, whatever fails.
  pub erase_article_fails :
      (signature : Bytes) (s s' : Store) → erase_article signature s ≢ (ok tt, s')
  unfolding erase_article remove_file
  erase_article_fails signature s s' e = ground arith
