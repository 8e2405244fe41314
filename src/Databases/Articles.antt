-- ===== src/Databases/Articles.antt =====
-- The articles of internal/databases/databases.go: storing one, finding it again, and the queue that
-- peers are fed from.
pub mod Storing
pub mod Feed
pub mod Writing
use kothawoc.Prelude.{
  ℕ, suc, ◌+◌, Bytes, codes, Bool, true, false, Option, none, some, List, [], ◌∷◌, ◌==◌, ◌++◌, beq,
  length, drop, take, if◌then◌else◌,
}
use kothawoc.Prelude.Int.{ℤ, pos, negsuc, incr}
use kothawoc.Serror.{
  Error, sentinel, serror, io_error, no_rows, constraint, invalid_article_number, bad_message,
}
use kothawoc.Dict.{Dict, lookup, insert}
use kothawoc.Table.{Table, Row, add, find_key, find_id, change, next_after}
use kothawoc.Text.{has_prefix, parse_int, format_int}
use kothawoc.Header.{Header, get}
use kothawoc.Databases.State.{Store, Stored, GroupDb, Entry}
use kothawoc.Databases.Monad.{
  Db, Outcome, ok, err, panic, ◌>>=◌, ◌>>◌, pure, fail, crash, io, or_fail, modify, traced,
  on_error, site, handle, group_exec, either,
}

-- `nntp.Article`; the body is the text that its reader gives.
pub record Article : Type 0 where
  pub header : Header
  pub body : Bytes
  pub bytes : ℕ
  pub lines : ℕ

-- `nntpserver.NumberedArticle`
pub record NumberedArticle : Type 0 where
  pub num : ℕ
  pub article : Article

abbrev pub signature_header : Bytes
signature_header = codes "X-Kothawoc-Signature"

abbrev pub message_id : Bytes
message_id = codes "Message-Id"

-- `strings.SplitN(s, "\r\n\r\n", 2)[1]`; `none` where there is no second part, and it panics.
unfoldable pub after_blank_line : Bytes → Option Bytes
after_blank_line [] = none
after_blank_line (c ∷ s) =
    let rest = after_blank_line s in
    if has_prefix (b'\r' ∷ (b'\n' ∷ (b'\r' ∷ (b'\n' ∷ [])))) (c ∷ s) then some (drop 3 s) else rest

-- `strings.Count(s, "\n")`
unfoldable pub count_newlines : Bytes → ℕ
count_newlines [] = 0
count_newlines (c ∷ s) = let n = count_newlines s in if c == b'\n' then suc n else n

-- The literal at the end of `getArticleBySignature`.
abbrev pub article_of : Bytes → Header × Bytes → Article
article_of body (h, b) = record {
  header = h;
  body = b;
  bytes = length body;
  lines = count_newlines body + 1;
}

-- The row that `id=?` or `messageid=?` finds. SQLite compares a column of numbers with a text of
-- digits by its value.
unfoldable pub find_article : Bytes → List (Row Stored) → Option (Row Stored)
find_article msg_id rows = elim (parse_int msg_id) [
  | none ↦ find_key msg_id rows
  | some n ↦ elim n [ pos k ↦ find_id k rows | negsuc _ ↦ none ]
]

-- `net/mail` is a parameter: `read_message` gives the header and the body, or `none` for an error.
module _ (read_message : Bytes → Option (Header × Bytes)) where
  -- `getArticleBySignature`
  unfoldable pub get_article_by_signature : Bytes → Db Article
  unfolding after_blank_line count_newlines
  get_article_by_signature signature =
      traced (site "getArticleBySignature" 516)
        (io (λ s. or_fail no_rows (lookup signature s.files) s))
      >>= λ message. elim (after_blank_line message) [
        | none ↦ crash
        | some body ↦
            traced (site "getArticleBySignature" 522) (or_fail bad_message (read_message message))
            >>= λ m. pure (article_of body m)
      ]

  -- `getArticleById`: a number is looked up among the numbers, anything else among the message-ids.
  unfoldable pub get_article_by_id : Bytes → Db Article
  unfolding get_article_by_signature find_article
  get_article_by_id msg_id =
      on_error (io (λ s. or_fail no_rows (find_article msg_id s.articles.rows) s))
        (λ _. fail (serror (site "getArticleById" 571) (sentinel invalid_article_number)))
      >>= λ r.
          on_error (get_article_by_signature r.rest.signature)
            (λ _. fail (serror (site "getArticleById" 577) (sentinel invalid_article_number)))

  -- `getNextArticle`
  unfoldable pub get_next_article : ℤ → Db NumberedArticle
  unfolding get_article_by_id
  get_next_article last_message =
      traced (site "getNextArticle" 1408)
        (io (λ s. or_fail no_rows (next_after last_message s.articles.rows) s))
      >>= λ id. traced (site "getNextArticle" 1414) (get_article_by_id (format_int 10 id)) >>= λ a.
          pure (record { num = id; article = a })

-- `INSERT INTO articles(messageid,signature,refs) VALUES(?,?,0)`, with the new row's number.
unfoldable pub insert_article : Bytes → Bytes → Db ℕ
insert_article mid signature = io (λ s.
    elim (add mid (record { signature = signature; refs = pos 0 }) s.articles) [
      | none ↦ (err (sentinel constraint), s)
      | some (n, t) ↦ (ok n, record s { articles = t })
    ])

-- What a failed write leaves.
unfoldable pub cut_short : Bytes → Bytes → Store → Store
cut_short name content s = elim s.torn [
  | [] ↦ s
  | cut ∷ cuts ↦ elim cut [
    | none ↦ record s { torn = cuts }
    | some n ↦ record s { torn = cuts; files = insert name (take n content) s.files }
  ]
]

-- `os.WriteFile` in the directory of articles; a call that fails may have written a part.
unfoldable pub write_file : Bytes → Bytes → Db (Unit {0})
unfolding cut_short
write_file name content s = elim s.faults [
  | [] ↦ (ok tt, record s { files = insert name content s.files })
  | fault ∷ rest ↦ elim fault [
    | true ↦ (err (sentinel io_error), cut_short name content (record s { faults = rest }))
    | false ↦ (ok tt, record s { faults = rest; files = insert name content s.files })
  ]
]

-- `storeArticle` of a message with this header, whose `RawMail` gives `raw`, or panics, `none`.
unfoldable pub store_article : Header → Option Bytes → Db ℕ
unfolding insert_article write_file
store_article header raw =
    traced (site "storeArticle" 1111)
      (insert_article (get header message_id) (get header signature_header))
    >>= λ n. traced (site "storeArticle" 1120) (io (pure n)) >>= λ article_id. elim raw [
      | none ↦ crash
      | some content ↦ write_file (get header signature_header) content >> pure article_id
    ]

-- `UPDATE articles SET refs=… WHERE messageid=? RETURNING refs`
unfoldable pub update_refs : (ℤ → ℤ) → Bytes → Db ℤ
update_refs f mid = io (λ s. elim (find_key mid s.articles.rows) [
  | none ↦ (err (sentinel no_rows), s)
  | some r ↦ (
    ok (f r.rest.refs),
    record s {
      articles = record s.articles {
        rows = change (λ a. record a { refs = f a.refs }) mid s.articles.rows;
      };
    },
  )
])

-- Is the message-id in the group's index? The column is UNIQUE.
unfoldable pub has_entry : Bytes → List Entry → Bool
has_entry mid [] = false
has_entry mid (e ∷ es) = let rest = has_entry mid es in if beq e.messageid mid then true else rest

-- `INSERT INTO articles(id,messageid) VALUES(?,?)` on a group's index.
unfoldable pub index_article : ℕ → Bytes → GroupDb → Option GroupDb
unfolding has_entry
index_article id mid g =
    if has_entry mid g.articles
    then none
    else some (record g { articles = g.articles ++ (record { id = id; messageid = mid } ∷ []) })

-- `addArticleToGroup`
unfoldable pub add_article_to_group : Bytes → Bytes → ℕ → Db (Unit {0})
unfolding index_article update_refs
add_article_to_group group mid article_id = handle group (λ n.
    traced (site "addArticleToGroup" 1161) (group_exec n (index_article article_id mid) constraint)
    >> (traced (site "addArticleToGroup" 1171) (update_refs incr mid) >>= λ _. pure tt))
