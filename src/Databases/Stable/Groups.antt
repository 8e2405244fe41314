-- ===== src/Databases/Stable/Groups.antt =====
-- Reading the permissions, and the groups.
use kothawoc.Prelude.{ℕ, Bytes, Option, none, some, List, [], ◌∷◌}
use kothawoc.Prelude.Int.{ℤ}
use kothawoc.Dict.{open_file, write_file}
use kothawoc.Table.{Row}
use kothawoc.Databases.State.{Store, GroupDb}
use kothawoc.Databases.Monad.{Outcome, ok}
use kothawoc.Databases.Keeps.{
  Keeps, FaultFree, DiskFree, pure-Keeps, fail-Keeps, bind-Keeps, either-Keeps, traced-Keeps,
  on_error-Keeps, if-Keeps, if_open-Keeps, handle-Keeps, io-Keeps, group_query-Keeps,
  group_exec-Keeps,
}
use kothawoc.Databases.Perms.{get_perms}
use kothawoc.Databases.Groups.{
  CardField, create_index, grant, query_group, get_group, send_groups, list_groups, list_articles,
  get_group_number, empty_db,
}
use kothawoc.Header.{Header}
use kothawoc.Databases.Stable.{IsStable, or_fail-query, gets-Keeps}

pub create_index-Keeps :
    {P : Store → Type 0} (fr : FaultFree P) (df : DiskFree P) (n : ℕ) → Keeps P (create_index n)
unfolding create_index
create_index-Keeps {P} fr df n = io-Keeps fr _ (record { at = λ s h. go s h (open_file n s.disk) })
  where
    go :
        (s : Store)
        → P s
        → (o : Option GroupDb)
        → P
            (elim o as (λ _. Outcome (Unit {0}) × Store) [
              | none ↦ (ok tt, record s { disk = write_file n empty_db s.disk })
              | some _ ↦ (ok tt, s)
            ]).1
    go s h none = df s _ h
    go s h (some _) = h

pub grant-Keeps :
    {P : Store → Type 0} (fr : FaultFree P) (df : DiskFree P) (n : ℕ) (card : List CardField)
    → Keeps P (grant n card)
unfolding grant
grant-Keeps fr df n [] = pure-Keeps tt
grant-Keeps fr df n (v ∷ vs) =
    bind-Keeps _ _ (traced-Keeps _ _ (group_exec-Keeps fr df n _ _)) (λ _. grant-Keeps fr df n vs)

module _ {P : Store → Type 0} {May : Header → Bytes → Type 0} (st : IsStable P May) where
  pub get_perms-Keeps : (torid g : Bytes) → Keeps P (get_perms torid g)
  unfolding get_perms
  get_perms-Keeps torid g = if-Keeps _ _ _ (pure-Keeps _) (
      either-Keeps _ _ _ (io-Keeps st.free _ (or_fail-query _ _)) (λ _. pure-Keeps _)
        (λ _. if_open-Keeps g _ _ (pure-Keeps _) (λ n.
          either-Keeps _ _ _ (group_query-Keeps st.free n _ _)
            (λ e.
              if-Keeps _ _ _
                (either-Keeps _ _ _ (group_query-Keeps st.free n _ _) (λ _. pure-Keeps _)
                  (λ p. pure-Keeps _))
                (pure-Keeps _))
            (λ p. pure-Keeps _))))

  query_group-Keeps : (name : Bytes) (n : ℕ) → Keeps P (query_group name n)
  unfolding query_group
  query_group-Keeps name n =
      bind-Keeps _ _ (on_error-Keeps _ _ (group_query-Keeps st.free n _ _) (λ _. fail-Keeps _))
        (λ desc.
          bind-Keeps _ _ (on_error-Keeps _ _ (group_query-Keeps st.free n _ _) (λ _. fail-Keeps _))
            (λ f. group_query-Keeps st.free n _ _))

  pub get_group-Keeps : (id name : Bytes) → Keeps P (get_group id name)
  unfolding get_group
  get_group-Keeps id name = bind-Keeps _ _ (get_perms-Keeps id name) (λ p.
      if-Keeps _ _ _ (fail-Keeps _)
        (if_open-Keeps name _ _ (fail-Keeps _) (query_group-Keeps name)))

  send_groups-Keeps : (id : Bytes) (rows : List (Row (Unit {0}))) → Keeps P (send_groups id rows)
  unfolding send_groups
  send_groups-Keeps id [] = pure-Keeps _
  send_groups-Keeps id (r ∷ rows) =
      let rest = send_groups-Keeps id rows in
      bind-Keeps _ _ (get_perms-Keeps id r.key) (λ p. if-Keeps _ _ _ rest (
        either-Keeps _ _ _ (get_group-Keeps id r.key) (λ _. pure-Keeps _)
          (λ g. bind-Keeps _ _ rest (λ _. pure-Keeps _))))

  pub list_groups-Keeps : (id : Bytes) → Keeps P (list_groups id)
  unfolding list_groups
  list_groups-Keeps id =
      bind-Keeps _ _ (traced-Keeps _ _ (io-Keeps st.free _ (gets-Keeps (λ s. s.groups.rows))))
        (λ rows. send_groups-Keeps id rows)

  pub list_articles-Keeps : (g : Bytes) (from to : ℤ) → Keeps P (list_articles g from to)
  unfolding list_articles
  list_articles-Keeps g from to = handle-Keeps g _ (λ n. group_query-Keeps st.free n _ _)

  pub get_group_number-Keeps : (g : Bytes) → Keeps P (get_group_number g)
  unfolding get_group_number
  get_group_number-Keeps g =
      bind-Keeps _ _ (io-Keeps st.free _ (or_fail-query _ _)) (λ r. pure-Keeps _)
