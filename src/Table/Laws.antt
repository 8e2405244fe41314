-- ===== src/Table/Laws.antt =====
-- Every row of a table has a number and a key of its own, and no number lies above the counter.
use kothawoc.Prelude.{
  ℕ, suc, ◌≤◌, ◌<◌, Bytes, beq, beq_iff, beq_self, Option, none, some, List, [], ◌∷◌, ◌++◌, All,
  All-append, ◌≡◌, ◌≢◌, refl, arith, ap, inl, inr, sym, ◌∙◌, Bool-cases, Option-cases,
}
use mathlib.Core.Path.{subst}
use kothawoc.Table.{Row, Table, find_key, find_id, max_id, next_id, add, change, delete}

module _ {A : Type 0} where
  abbrev pub Apart : Row A → Row A → Type 0
  Apart r q = (r.id ≢ q.id) × (r.key ≢ q.key)

  abbrev pub Distinct : List (Row A) → Type 0
  Distinct [] = Unit
  Distinct (r ∷ rs) = All (Apart r) rs × Distinct rs

  pub record IsTable (t : Table A) : Type 0 where
    pub bounded : All (λ r. r.id ≤ t.seq) t.rows
    pub distinct : Distinct t.rows

  max_id-le : (n : ℕ) (rs : List (Row A)) → All (λ r. r.id ≤ n) rs → max_id rs ≤ n
  unfolding max_id
  max_id-le n [] h = omega arith
  max_id-le n (r ∷ rs) h = omega (arith, max_id-le n rs h.1)

  pub next_id-IsTable : (t : Table A) → IsTable t → next_id t ≡ suc t.seq
  unfolding next_id
  next_id-IsTable t h = omega (arith, max_id-le t.seq t.rows h.bounded)

  pub find_key-append :
      (k : Bytes) (rs qs : List (Row A))
      → find_key k rs ≡ none
      → find_key k (rs ++ qs) ≡ find_key k qs
  unfolding find_key
  find_key-append k [] qs h = refl
  find_key-append k (r ∷ rs) qs h = ground (arith, find_key-append k rs qs)

  pub find_key-append_some :
      (k : Bytes) (rs qs : List (Row A)) (r : Row A)
      → find_key k rs ≡ some r
      → find_key k (rs ++ qs) ≡ some r
  unfolding find_key
  find_key-append_some k [] qs r h = cc
  find_key-append_some k (q ∷ rs) qs r h = ground (arith, find_key-append_some k rs qs r)

  find_key_ne : (k : Bytes) (rs : List (Row A)) → find_key k rs ≡ none → All (λ r. r.key ≢ k) rs
  unfolding find_key
  find_key_ne k [] h = tt
  find_key_ne k (r ∷ rs) h = ground (arith, beq_iff r.key k, find_key_ne k rs)

  pub All-mono :
      (P Q : Row A → Type 0) (rs : List (Row A)) → ((r : Row A) → P r → Q r) → All P rs → All Q rs
  All-mono P Q [] f h = tt
  All-mono P Q (r ∷ rs) f h = (f r h.0, All-mono P Q rs f h.1)

  Distinct-append :
      (rs : List (Row A)) (q : Row A)
      → Distinct rs
      → All (λ r. Apart r q) rs
      → Distinct (rs ++ (q ∷ []))
  Distinct-append [] q d h = (tt, tt)
  Distinct-append (r ∷ rs) q d h =
      (All-append (Apart r) rs (q ∷ []) d.0 (h.0, tt), Distinct-append rs q d.1 h.1)

  pub All-both :
      (P Q : Row A → Type 0) (rs : List (Row A)) → All P rs → All Q rs → All (λ r. P r × Q r) rs
  All-both P Q [] h k = tt
  All-both P Q (r ∷ rs) h k = ((h.0, k.0), All-both P Q rs h.1 k.1)

  append-IsTable :
      (t : Table A) (n : ℕ) (k : Bytes) (a : A)
      → IsTable t
      → find_key k t.rows ≡ none
      → t.seq < n
      → IsTable (record { seq = n; rows = t.rows ++ (record { id = n; key = k; rest = a } ∷ []) })
  append-IsTable t n k a h e lt =
      let q : Row A = record { id = n; key = k; rest = a } in
      record {
        bounded =
            All-append (λ r. r.id ≤ n) t.rows (q ∷ [])
              (All-mono (λ r. r.id ≤ t.seq) (λ r. r.id ≤ n) t.rows (λ r b. omega arith) h.bounded)
              (omega arith, tt);
        distinct = Distinct-append t.rows q h.distinct (
            All-both (λ r. r.id ≢ n) (λ r. r.key ≢ k) t.rows
              (All-mono (λ r. r.id ≤ t.seq) (λ r. r.id ≢ n) t.rows (λ r b. omega arith) h.bounded)
              (find_key_ne k t.rows e));
      }

  -- The table after an insertion that goes through.
  abbrev pub grown : Bytes → A → Table A → Table A
  grown k a t = record {
    seq = suc t.seq;
    rows = t.rows ++ (record { id = suc t.seq; key = k; rest = a } ∷ []);
  }

  pub add-new :
      (t : Table A) (k : Bytes) (a : A)
      → IsTable t
      → find_key k t.rows ≡ none
      → add k a t ≡ some (suc t.seq, grown k a t)
  unfolding add
  add-new t k a h e = ground (arith, next_id-IsTable t h)

  pub add-old :
      (t : Table A) (k : Bytes) (a : A) (r : Row A) → find_key k t.rows ≡ some r → add k a t ≡ none
  unfolding add
  add-old t k a r e = ground arith

  pub grown-IsTable :
      (t : Table A) (k : Bytes) (a : A)
      → IsTable t
      → find_key k t.rows ≡ none
      → IsTable (grown k a t)
  grown-IsTable t k a h e = append-IsTable t (suc t.seq) k a h e (omega arith)

  -- The new row is found under its key, and every other key as before.
  pub find_key-grown :
      (t : Table A) (k : Bytes) (a : A)
      → find_key k t.rows ≡ none
      → find_key k (grown k a t).rows ≡ some (record { id = suc t.seq; key = k; rest = a })
  unfolding find_key
  find_key-grown t k a e = rw (find_key-append k t.rows _ e, beq_self k)

  find_key-one : (j : Bytes) (q : Row A) → q.key ≢ j → find_key j (q ∷ []) ≡ none
  unfolding find_key
  find_key-one j q ne = ground (arith, beq_iff q.key j)

  pub find_key-grown_ne :
      (t : Table A) (k j : Bytes) (a : A)
      → k ≢ j
      → find_key j (grown k a t).rows ≡ find_key j t.rows
  find_key-grown_ne t k j a ne = elim (Option-cases (find_key j t.rows)) [
    | inl e ↦
        find_key-append j t.rows _ e
        ∙ (find_key-one j (record { id = suc t.seq; key = k; rest = a }) ne ∙ sym e)
    | inr (r, e) ↦ find_key-append_some j t.rows _ r e ∙ sym e
  ]

  find_id-above : (n : ℕ) (rs : List (Row A)) → All (λ r. r.id < n) rs → find_id n rs ≡ none
  unfolding find_id
  find_id-above n [] h = refl
  find_id-above n (r ∷ rs) h = ground (arith, find_id-above n rs h.1)

  find_id-append :
      (n : ℕ) (rs qs : List (Row A)) → find_id n rs ≡ none → find_id n (rs ++ qs) ≡ find_id n qs
  unfolding find_id
  find_id-append n [] qs h = refl
  find_id-append n (r ∷ rs) qs h = ground (arith, find_id-append n rs qs)

  pub find_key-All :
      (P : Row A → Type 0) (k : Bytes) (rs : List (Row A)) (r : Row A)
      → All P rs
      → find_key k rs ≡ some r
      → P r
  unfolding find_key
  find_key-All P k [] r h e = cc
  find_key-All P k (q ∷ rs) r h e = elim (Bool-cases (beq q.key k)) [
    | inl b ↦ let same : q ≡ r = ground arith in subst P same h.0
    | inr b ↦ find_key-All P k rs r h.1 (rw b at e)
  ]

  -- A row that is found by its key is found by its number.
  pub find_id-find_key :
      (k : Bytes) (rs : List (Row A)) (r : Row A)
      → Distinct rs
      → find_key k rs ≡ some r
      → (find_id r.id rs ≡ some r) × (r.key ≡ k)
  unfolding find_key find_id
  find_id-find_key k [] r d e = cc
  find_id-find_key k (q ∷ rs) r d e = elim (Bool-cases (beq q.key k)) [
    | inl b ↦ ground (arith, beq_iff q.key k)
    | inr b ↦
        let e' : find_key k rs ≡ some r = rw b at e in
        ground (arith, find_id-find_key k rs r d.1 e', find_key-All (Apart q) k rs r d.0 e')
  ]

  change-All :
      (P : ℕ → Bytes → Type 0) (f : A → A) (k : Bytes) (rs : List (Row A))
      → All (λ r. P r.id r.key) rs
      → All (λ r. P r.id r.key) (change f k rs)
  unfolding change
  change-All P f k [] h = tt
  change-All P f k (r ∷ rs) h = elim (Bool-cases (beq r.key k)) [
    | inl b ↦ rw b (h.0, change-All P f k rs h.1)
    | inr b ↦ rw b (h.0, change-All P f k rs h.1)
  ]

  change-Distinct :
      (f : A → A) (k : Bytes) (rs : List (Row A)) → Distinct rs → Distinct (change f k rs)
  unfolding change
  change-Distinct f k [] d = tt
  change-Distinct f k (r ∷ rs) d =
      let rest = change-All (λ i j. (r.id ≢ i) × (r.key ≢ j)) f k rs d.0 in
      elim (Bool-cases (beq r.key k)) [
        | inl b ↦ rw b (rest, change-Distinct f k rs d.1)
        | inr b ↦ rw b (rest, change-Distinct f k rs d.1)
      ]

  -- A change of the other columns moves no number and no key.
  pub change-IsTable :
      (f : A → A) (k : Bytes) (t : Table A)
      → IsTable t
      → IsTable (record t { rows = change f k t.rows })
  change-IsTable f k t h = record {
    bounded = change-All (λ i j. i ≤ t.seq) f k t.rows h.bounded;
    distinct = change-Distinct f k t.rows h.distinct;
  }

  delete-All : (P : Row A → Type 0) (k : Bytes) (rs : List (Row A)) → All P rs → All P (delete k rs)
  unfolding delete
  delete-All P k [] h = tt
  delete-All P k (r ∷ rs) h = elim (Bool-cases (beq r.key k)) [
    | inl b ↦ rw b (delete-All P k rs h.1)
    | inr b ↦ rw b (h.0, delete-All P k rs h.1)
  ]

  delete-Distinct : (k : Bytes) (rs : List (Row A)) → Distinct rs → Distinct (delete k rs)
  unfolding delete
  delete-Distinct k [] d = tt
  delete-Distinct k (r ∷ rs) d = elim (Bool-cases (beq r.key k)) [
    | inl b ↦ rw b (delete-Distinct k rs d.1)
    | inr b ↦ rw b (delete-All (Apart r) k rs d.0, delete-Distinct k rs d.1)
  ]

  pub delete-IsTable :
      (k : Bytes) (t : Table A) → IsTable t → IsTable (record t { rows = delete k t.rows })
  delete-IsTable k t h = record {
    bounded = delete-All (λ r. r.id ≤ t.seq) k t.rows h.bounded;
    distinct = delete-Distinct k t.rows h.distinct;
  }

  some_pair :
      {n m : ℕ} {t u : Table A}
      → ◌≡◌ {A = Option (ℕ × Table A)} (some (n, t)) (some (m, u))
      → (n ≡ m) × (t ≡ u)
  some_pair {n} {m} {t} {u} e = (
    ap (λ (o : Option (ℕ × Table A)). elim o [ none ↦ n | some p ↦ p.0 ]) e,
    ap (λ (o : Option (ℕ × Table A)). elim o [ none ↦ t | some p ↦ p.1 ]) e,
  )

  -- What is known of an insertion that went through.
  pub add-inv :
      (t : Table A) (k : Bytes) (a : A) (n : ℕ) (t' : Table A)
      → IsTable t
      → add k a t ≡ some (n, t')
      → (find_key k t.rows ≡ none) × (n ≡ suc t.seq) × (t' ≡ grown k a t)
  add-inv t k a n t' h e = elim (Option-cases (find_key k t.rows)) [
    | inl new ↦
        let same : ◌≡◌ {A = Option (ℕ × Table A)} (some (suc t.seq, grown k a t)) (some (n, t')) =
          sym (add-new t k a h new) ∙ e in
        (new, sym (some_pair same).0, sym (some_pair same).1)
    | inr (r, old) ↦ cc (add-old t k a r old)
  ]

  pub add-IsTable :
      (t : Table A) (k : Bytes) (a : A) (n : ℕ) (t' : Table A)
      → IsTable t
      → add k a t ≡ some (n, t')
      → IsTable t'
  add-IsTable t k a n t' h e =
      let (new, _, same) = add-inv t k a n t' h e in
      subst IsTable (sym same) (grown-IsTable t k a h new)
