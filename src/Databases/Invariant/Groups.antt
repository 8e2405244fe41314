-- ===== src/Databases/Invariant/Groups.antt =====
-- A new group keeps the invariant.
use kothawoc.Prelude.{
  ℕ, suc, Bytes, Option, none, some, List, ◌≡◌, refl, sym, Bool-cases, inl, inr, arith, beq, beq→eq,
}
use mathlib.Core.Path.{subst, subst₂}
use kothawoc.Serror.{sentinel, constraint}
use kothawoc.Dict.{lookup, insert, lookup-insert}
use kothawoc.Table.{Table, find_key, add}
use kothawoc.Table.Laws.{grown, add-inv, grown-IsTable, find_key-grown, find_key-append_some}
use kothawoc.Databases.State.{Store}
use kothawoc.Databases.Monad.{Outcome, ok, err, ◌>>◌, pure, modify, traced, site, io, group_exec}
use kothawoc.Databases.Keeps.{
  Keeps, Into, Gives, Ends, FaultFree, DiskFree, pure-Keeps, traced-Keeps, io-Keeps,
  group_exec-Keeps, bind-Into, bind-Gives, pure-Gives, Into-Keeps, traced-Gives, io-Gives,
}
use kothawoc.Databases.Groups.{
  CardField, insert_group, create_index, grant, register, new_group, set_config, description, flags,
}
use kothawoc.Databases.Stable.Groups.{create_index-Keeps, grant-Keeps}
use kothawoc.Databases.Invariant.{IsValid, Listed, free, disk_free}

-- While a group is being made, its row stands in the table.
abbrev pub Making : Bytes → ℕ → Store → Type 0
Making name n s = IsValid s × Listed s name n

Making-free : (name : Bytes) (n : ℕ) → FaultFree (Making name n)
Making-free name n s fs h = (free s fs h.0, h.1)

Making-disk_free : (name : Bytes) (n : ℕ) → DiskFree (Making name n)
Making-disk_free name n s d h = (disk_free s d h.0, h.1)

groups_grown :
    (s : Store) (name : Bytes)
    → IsValid s
    → find_key name s.groups.rows ≡ none
    → Making name (suc s.groups.seq) (record s { groups = grown name tt s.groups })
groups_grown s name h new = (
  record {
    articles = h.articles;
    groups = grown-IsTable s.groups name tt h.groups new;
    peers = h.peers;
    listed = λ j n e.
        let (r, found, same) = h.listed j n e in
        (r, find_key-append_some j s.groups.rows _ r found, same);
  },
  (
    record { id = suc s.groups.seq; key = name; rest = tt },
    find_key-grown s.groups name tt new,
    refl,
  ),
)

insert_group-Gives : (name : Bytes) → Gives IsValid (insert_group name) (Making name)
unfolding insert_group
insert_group-Gives name =
    io-Gives free _ _ (record { at = λ s h. go s h (add name tt s.groups) refl })
  where
    go :
        (s : Store)
        → IsValid s
        → (o : Option (ℕ × Table (Unit {0}))) → add name tt s.groups ≡ o
        → Ends IsValid (Making name) (elim o as (λ _. Outcome ℕ × Store) [
          | none ↦ (err (sentinel constraint), s)
          | some (n, t) ↦ (ok n, record s { groups = t })
        ])
    go s h none e = h
    go s h (some (n, t)) e =
        let (new, number, same) = add-inv s.groups name tt n t h.groups e in
        subst (λ t'. Making name n (record s { groups = t' })) (sym same)
          (subst (λ m. Making name m (record s { groups = grown name tt s.groups })) (sym number)
            (groups_grown s name h new))

pub register-Into : (name : Bytes) (n : ℕ) → Into (Making name n) IsValid (modify (register name n))
unfolding register
register-Into name n = record {
  at = λ s h. record {
    articles = h.0.articles;
    groups = h.0.groups;
    peers = h.0.peers;
    listed = λ j m e. at s h j m e;
  };
}
  where
    at :
        (s : Store)
        → Making name n s
        → (j : Bytes) (m : ℕ) → lookup j (insert name n s.group_articles) ≡ some m
        → Listed s j m
    at s h j m e = elim (Bool-cases (beq name j)) [
      | inl b ↦
          let number : n ≡ m = ground (arith, lookup-insert name j n s.group_articles) in
          subst₂ (Listed s) (beq→eq name j b) number h.1
      | inr b ↦ h.0.listed j m (ground (arith, lookup-insert name j n s.group_articles))
    ]

pub new_group-Keeps :
    (name desc : Bytes) (card : List CardField) → Keeps IsValid (new_group name desc card)
unfolding new_group
new_group-Keeps name desc card = Into-Keeps _ (
    bind-Gives (λ s h. h) _ _ (Making name) (traced-Gives _ _ _ (insert_group-Gives name))
      (λ id.
        bind-Gives (λ s h. h.0) _ _ (Making name)
          (traced-Gives _ _ _
            (io-Gives (Making-free name id) _ _ (pure-Gives id (Making name) (λ s h. h))))
          (λ n. made n)))
  where
    made :
        (n : ℕ)
        → Into (Making name n) IsValid (
            traced (site "newGroup" 455) (io (pure tt))
            >> (traced (site "newGroup" 460) (create_index n)
                >> (traced
                      (site "newGroup" 465)
                      (group_exec n (set_config description desc) constraint)
                    >> (traced
                          (site "newGroup" 469)
                          (group_exec n (set_config flags flags) constraint)
                        >> (grant n card >> modify (register name n))))))
    made n =
        let fr = Making-free name n in
        let df = Making-disk_free name n in
        let done = λ (s : Store) (h : Making name n s). h.0 in
        bind-Into done _ _ (traced-Keeps _ _ (io-Keeps fr _ (pure-Keeps tt))) (λ _.
          bind-Into done _ _ (traced-Keeps _ _ (create_index-Keeps fr df n)) (λ _.
            bind-Into done _ _ (traced-Keeps _ _ (group_exec-Keeps fr df n _ _)) (λ _.
              bind-Into done _ _ (traced-Keeps _ _ (group_exec-Keeps fr df n _ _))
                (λ _. bind-Into done _ _ (grant-Keeps fr df n card) (λ _. register-Into name n)))))
