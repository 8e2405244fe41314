-- ===== src/Databases/Invariant/Articles.antt =====
-- Storing an article and counting its groups keep the invariant.
use kothawoc.Prelude.{List, ℕ, Bytes, Option, none, some, ◌≡◌, refl}
use kothawoc.Prelude.Int.{ℤ, pos}
use kothawoc.Serror.{sentinel, constraint, no_rows}
use kothawoc.Header.{Header, get}
use kothawoc.Table.{Row, Table, find_key, add, change}
use kothawoc.Table.Laws.{IsTable, add-IsTable, change-IsTable}
use kothawoc.Databases.State.{Store, Stored}
use kothawoc.Databases.Monad.{crash, Outcome, ok, err}
use kothawoc.Databases.Keeps.{Keeps, pure-Keeps, bind-Keeps, traced-Keeps, io-Keeps}
use kothawoc.Databases.Articles.{signature_header, insert_article, store_article, update_refs}
use kothawoc.Databases.Articles.Writing.{write_file-Keeps}
use kothawoc.Databases.Invariant.{IsValid, free, files_free}

articles_free :
    (s : Store) (t : Table Stored) → IsValid s → IsTable t → IsValid (record s { articles = t })
articles_free s t h k = record {
  articles = k;
  groups = h.groups;
  peers = h.peers;
  listed = h.listed;
}

insert_article-Keeps : (mid signature : Bytes) → Keeps IsValid (insert_article mid signature)
unfolding insert_article
insert_article-Keeps mid signature = io-Keeps free _ (record {
  at = λ s h. go s h (add mid (record { signature = signature; refs = pos 0 }) s.articles) refl;
})
  where
    go :
        (s : Store)
        → IsValid s
        → (o : Option (ℕ × Table Stored))
        → add mid (record { signature = signature; refs = pos 0 }) s.articles ≡ o
        → IsValid
            (elim o as (λ _. Outcome ℕ × Store) [
              | none ↦ (err (sentinel constraint), s)
              | some (n, t) ↦ (ok n, record s { articles = t })
            ]).1
    go s h none e = h
    go s h (some (n, t)) e = articles_free s t h (add-IsTable s.articles mid _ n t h.articles e)

torn_free : (s : Store) (cuts : List (Option ℕ)) → IsValid s → IsValid (record s { torn = cuts })
torn_free s cuts h = record {
  articles = h.articles;
  groups = h.groups;
  peers = h.peers;
  listed = h.listed;
}

pub store_article-Keeps : (h : Header) (raw : Option Bytes) → Keeps IsValid (store_article h raw)
unfolding store_article
store_article-Keeps h none = bind-Keeps _ _ (traced-Keeps _ _ (insert_article-Keeps _ _)) (λ n.
    bind-Keeps _ (λ _. crash) (traced-Keeps _ _ (io-Keeps free _ (pure-Keeps n)))
      (λ id. record { at = λ s v. v }))
store_article-Keeps h (some raw) =
    bind-Keeps _ _ (traced-Keeps _ _ (insert_article-Keeps _ _)) (λ n.
      bind-Keeps _ _ (traced-Keeps _ _ (io-Keeps free _ (pure-Keeps n))) (λ id.
        bind-Keeps _ _
          (write_file-Keeps free torn_free (get h signature_header) raw
            (λ part _ s v. files_free s _ v))
          (λ _. pure-Keeps id)))

pub update_refs-Keeps : (f : ℤ → ℤ) (mid : Bytes) → Keeps IsValid (update_refs f mid)
unfolding update_refs
update_refs-Keeps f mid =
    io-Keeps free _ (record { at = λ s h. go s h (find_key mid s.articles.rows) })
  where
    go :
        (s : Store)
        → IsValid s
        → (o : Option (Row Stored))
        → IsValid
            (elim o as (λ _. Outcome ℤ × Store) [
              | none ↦ (err (sentinel no_rows), s)
              | some r ↦ (
                ok (f r.rest.refs),
                record s {
                  articles = record s.articles {
                    rows = change (λ a. record a { refs = f a.refs }) mid s.articles.rows;
                  };
                },
              )
            ]).1
    go s h none = h
    go s h (some r) = articles_free s _ h (change-IsTable _ mid s.articles h.articles)
