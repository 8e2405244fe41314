-- ===== src/Databases/Stable/Starting.antt =====
-- A start leaves the table of peers and the files of the articles alone.
use kothawoc.Prelude.{ℕ, Bytes, Bool, Option, none, some, List, [], ◌∷◌}
use kothawoc.Prelude.Int.{pos}
use kothawoc.Serror.{sentinel, constraint}
use kothawoc.Dict.{Dict}
use kothawoc.Table.{Row, Table}
use kothawoc.Databases.State.{Store, Stored, PeerData}
use kothawoc.Databases.Monad.{Db, Outcome, ok, err}
use kothawoc.Databases.Keeps.{
  Keeps, pure-Keeps, modify-Keeps, bind-Keeps, either-Keeps, traced-Keeps, io-Keeps,
}
use kothawoc.Databases.Groups.{register}
use kothawoc.Databases.Open.{
  seed, create_articles, create_groups, open_create_db, open_each, open_groups, new_backend_dbs,
}
use kothawoc.Databases.Stable.{gets-Keeps}
use kothawoc.Databases.Stable.Lasting.{Lasts}

module _ (Q : Table PeerData → Dict Bytes → Type 0) where
  free : (s : Store) (fs : List Bool) → Lasts Q s → Lasts Q (record s { faults = fs })
  free s fs h = h

  create_articles-Keeps : (t : ℕ) → Keeps (Lasts Q) (create_articles t)
  unfolding create_articles
  create_articles-Keeps t = record { at = λ s h. go s h (seed t row s.articles) }
    where
      row : Stored
      row = record { signature = kothawoc.Prelude.codes "1"; refs = pos 0 }

      go :
          (s : Store)
          → Lasts Q s
          → (o : Option (Table Stored))
          → Lasts Q
              (elim o as (λ _. Outcome (Unit {0}) × Store) [
                | none ↦ (err (sentinel constraint), s)
                | some a ↦ (ok tt, record s { articles = a })
              ]).1
      go s h none = h
      go s h (some a) = h

  create_groups-Keeps : (t : ℕ) → Keeps (Lasts Q) (create_groups t)
  unfolding create_groups
  create_groups-Keeps t = record { at = λ s h. go s h (seed t tt s.groups) }
    where
      go :
          (s : Store)
          → Lasts Q s
          → (o : Option (Table (Unit {0})))
          → Lasts Q
              (elim o as (λ _. Outcome (Unit {0}) × Store) [
                | none ↦ (err (sentinel constraint), s)
                | some g ↦ (ok tt, record s { groups = g })
              ]).1
      go s h none = h
      go s h (some g) = h

  open_create_db-Keeps :
      (script : Db (Unit {0})) → Keeps (Lasts Q) script → Keeps (Lasts Q) (open_create_db script)
  unfolding open_create_db
  open_create_db-Keeps script k =
      bind-Keeps _ _ (traced-Keeps _ _ (io-Keeps free _ (pure-Keeps tt))) (λ _.
        bind-Keeps _ _ (traced-Keeps _ _ (io-Keeps free _ k))
          (λ _. traced-Keeps _ _ (io-Keeps free _ (pure-Keeps tt))))

  open_each-Keeps : (rows : List (Row (Unit {0}))) → Keeps (Lasts Q) (open_each rows)
  unfolding open_each register
  open_each-Keeps [] = pure-Keeps tt
  open_each-Keeps (r ∷ rows) =
      bind-Keeps _ _ (traced-Keeps _ _ (io-Keeps free _ (pure-Keeps tt))) (λ _.
        bind-Keeps _ _ (traced-Keeps _ _ (io-Keeps free _ (pure-Keeps tt))) (λ _.
          bind-Keeps _ _ (modify-Keeps (register r.key r.id) (λ s h. h))
            (λ _. open_each-Keeps rows)))

  open_groups-Keeps : Keeps (Lasts Q) open_groups
  unfolding open_groups
  open_groups-Keeps =
      bind-Keeps _ _ (traced-Keeps _ _ (io-Keeps free _ (gets-Keeps (λ s. s.groups.rows))))
        (λ rows. open_each-Keeps rows)

  pub new_backend_dbs-Lasts : (t : ℕ) → Keeps (Lasts Q) (new_backend_dbs t)
  unfolding new_backend_dbs
  new_backend_dbs-Lasts t =
      bind-Keeps _ _ (traced-Keeps _ _ (open_create_db-Keeps _ (create_articles-Keeps t))) (λ _.
        bind-Keeps _ _ (traced-Keeps _ _ (open_create_db-Keeps _ (pure-Keeps tt))) (λ _.
          bind-Keeps _ _ (traced-Keeps _ _ (open_create_db-Keeps _ (create_groups-Keeps t))) (λ _.
            bind-Keeps _ _ (traced-Keeps _ _ (open_create_db-Keeps _ (pure-Keeps tt))) (λ _.
              bind-Keeps _ _
                (modify-Keeps (λ s. record s { group_articles = []; name2int = []; name2hex = [] })
                  (λ s h. h))
                (λ _.
                  either-Keeps _ _ _ open_groups-Keeps (λ _. pure-Keeps tt)
                    (λ _. pure-Keeps tt))))))
