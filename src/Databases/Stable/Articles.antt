-- ===== src/Databases/Stable/Articles.antt =====
-- The operations on articles.
use kothawoc.Prelude.{ℕ, Bytes, Option, none, some, ◌+◌, length}
use kothawoc.Prelude.Int.{ℤ, incr}
use kothawoc.Serror.{bad_message}
use kothawoc.Header.{Header}
use kothawoc.Databases.State.{Store}
use kothawoc.Databases.Monad.{Db, ◌>>=◌, pure, crash, or_fail, traced, site}
use kothawoc.Databases.Keeps.{
  Keeps, pure-Keeps, fail-Keeps, bind-Keeps, traced-Keeps, on_error-Keeps, or_fail-Keeps,
  handle-Keeps, io-Keeps, group_exec-Keeps,
}
use kothawoc.Databases.Articles.{
  Article, count_newlines, add_article_to_group, after_blank_line, get_article_by_signature,
  get_article_by_id, get_next_article,
}
use kothawoc.Databases.Stable.{IsStable, or_fail-query}

module _ {P : Store → Type 0} {May : Header → Bytes → Type 0} (st : IsStable P May) where
  pub add_article_to_group-Keeps :
      (g mid : Bytes) (id : ℕ) → Keeps P (add_article_to_group g mid id)
  unfolding add_article_to_group
  add_article_to_group-Keeps g mid id = handle-Keeps g _ (λ n.
      bind-Keeps _ _ (traced-Keeps _ _ (group_exec-Keeps st.free st.disk_free n _ _))
        (λ _. bind-Keeps _ _ (traced-Keeps _ _ (st.update_refs incr mid)) (λ _. pure-Keeps tt)))

  -- Reading articles.
  module _ (read_message : Bytes → Option (Header × Bytes)) where
    pub get_article_by_signature-Keeps :
        (signature : Bytes) → Keeps P (get_article_by_signature read_message signature)
    unfolding get_article_by_signature
    get_article_by_signature-Keeps signature =
        bind-Keeps _ _ (traced-Keeps _ _ (io-Keeps st.free _ (or_fail-query _ _)))
          (λ message. go (after_blank_line message) message)
      where
        go :
            (o : Option Bytes) (message : Bytes)
            → Keeps P (elim o as (λ _. Db Article) [
              | none ↦ crash
              | some body ↦
                  traced
                    (site "getArticleBySignature" 522)
                    (or_fail bad_message (read_message message))
                  >>= λ m. pure (record {
                    header = m.0;
                    body = m.1;
                    bytes = length body;
                    lines = count_newlines body + 1;
                  })
            ])
        go none message = record { at = λ s h. h }
        go (some body) message =
            bind-Keeps _ _ (traced-Keeps _ _ (or_fail-Keeps _ _)) (λ m. pure-Keeps _)

    pub get_article_by_id-Keeps : (id : Bytes) → Keeps P (get_article_by_id read_message id)
    unfolding get_article_by_id
    get_article_by_id-Keeps id =
        bind-Keeps _ _
          (on_error-Keeps _ _ (io-Keeps st.free _ (or_fail-query _ _)) (λ _. fail-Keeps _))
          (λ r. on_error-Keeps _ _ (get_article_by_signature-Keeps _) (λ _. fail-Keeps _))

    pub get_next_article-Keeps : (n : ℤ) → Keeps P (get_next_article read_message n)
    unfolding get_next_article
    get_next_article-Keeps n =
        bind-Keeps _ _ (traced-Keeps _ _ (io-Keeps st.free _ (or_fail-query _ _)))
          (λ id. bind-Keeps _ _ (traced-Keeps _ _ (get_article_by_id-Keeps _)) (λ a. pure-Keeps _))
