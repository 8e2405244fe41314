-- ===== src/Databases/Articles/Feed.antt =====
-- The queue that peers are fed from.
use kothawoc.Prelude.{Bytes, Option, some, ◌≡◌, arith}
use mathlib.Core.Path.{subst}
use kothawoc.Prelude.Int.{ℤ}
use kothawoc.Header.{Header}
use kothawoc.Table.{next_after}
use kothawoc.Table.Queue.{IsNext, next_after-IsNext}
use kothawoc.Databases.State.{Store}
use kothawoc.Databases.Monad.{ok}
use kothawoc.Databases.Articles.{NumberedArticle, get_next_article}

module _ (read_message : Bytes → Option (Header × Bytes)) where
  get_next_article_number :
      (n : ℤ) (s : Store) (a : NumberedArticle)
      → (get_next_article read_message n s).0 ≡ ok a
      → next_after n s.articles.rows ≡ some a.num
  unfolding get_next_article
  get_next_article_number n s a h = ground arith

  -- An article that `getNextArticle` returns has a number past the one given, and every stored article
  -- is numbered at or below the given number or at or above the one returned: none is skipped.
  pub get_next_article-IsNext :
      (n : ℤ) (s : Store) (a : NumberedArticle)
      → (get_next_article read_message n s).0 ≡ ok a
      → IsNext n s.articles.rows (some a.num)
  get_next_article-IsNext n s a h =
      subst (IsNext n s.articles.rows) (get_next_article_number n s a h)
        (next_after-IsNext n s.articles.rows)
