-- ===== src/Table.antt =====
-- An SQL table with an `INTEGER PRIMARY KEY AUTOINCREMENT` column, a UNIQUE text column and other
-- columns, and the statements that internal/databases/databases.go runs on such tables.
pub mod Laws
pub mod Queue
pub mod Pending
use kothawoc.Prelude.Int.{ℤ, pos, negsuc}
use kothawoc.Prelude.{
  Bool, true, ℕ, suc, max, Bytes, beq, Option, none, some, List, [], ◌∷◌, ◌++◌, ◌==◌, leb, ltb,
  if◌then◌else◌,
}

pub record Row (A : Type 0) : Type 0 where
  pub id : ℕ
  pub key : Bytes
  pub rest : A

-- `seq` is the table's entry in `sqlite_sequence`.
pub record Table (A : Type 0) : Type 0 where
  pub seq : ℕ
  pub rows : List (Row A)

-- `id > n` for a signed number.
abbrev pub above : ℤ → ℕ → Bool
above (pos n) id = ltb n id
above (negsuc _) id = true

-- The smaller of a number and the best so far.
abbrev pub least : ℕ → Option ℕ → ℕ
least n none = n
least n (some m) = if leb n m then n else m

module _ {A : Type 0} where
  -- `SELECT … WHERE key=?`
  unfoldable pub find_key : Bytes → List (Row A) → Option (Row A)
  find_key k [] = none
  find_key k (r ∷ rs) = if beq r.key k then some r else find_key k rs

  -- `SELECT … WHERE id=?`
  unfoldable pub find_id : ℕ → List (Row A) → Option (Row A)
  find_id n [] = none
  find_id n (r ∷ rs) = if r.id == n then some r else find_id n rs

  unfoldable pub max_id : List (Row A) → ℕ
  max_id [] = 0
  max_id (r ∷ rs) = max r.id (max_id rs)

  -- The number that AUTOINCREMENT gives out next: above every one that was ever given.
  unfoldable pub next_id : Table A → ℕ
  unfolding max_id
  next_id t = suc (max t.seq (max_id t.rows))

  -- `INSERT INTO t(key, …) VALUES(…)`; `none` is the UNIQUE constraint.
  unfoldable pub add : Bytes → A → Table A → Option (ℕ × Table A)
  unfolding find_key next_id
  add k a t = elim (find_key k t.rows) [
    | some _ ↦ none
    | none ↦ some (
      next_id t,
      record {
        seq = next_id t;
        rows = t.rows ++ (record { id = next_id t; key = k; rest = a } ∷ []);
      },
    )
  ]

  -- `INSERT INTO t(id, key, …) VALUES(…)`, under both constraints.
  unfoldable pub add_at : ℕ → Bytes → A → Table A → Option (Table A)
  unfolding find_key find_id
  add_at n k a t = elim (find_id n t.rows) [
    | some _ ↦ none
    | none ↦ elim (find_key k t.rows) [
      | some _ ↦ none
      | none ↦ some (record {
        seq = max t.seq n;
        rows = t.rows ++ (record { id = n; key = k; rest = a } ∷ []);
      })
    ]
  ]

  -- `UPDATE t SET … WHERE key=?`
  unfoldable pub change : (A → A) → Bytes → List (Row A) → List (Row A)
  change f k [] = []
  change f k (r ∷ rs) = (if beq r.key k then record r { rest = f r.rest } else r) ∷ change f k rs

  -- `DELETE FROM t WHERE key=?`
  unfoldable pub delete : Bytes → List (Row A) → List (Row A)
  delete k [] = []
  delete k (r ∷ rs) = if beq r.key k then delete k rs else r ∷ delete k rs

  -- `SELECT id FROM t WHERE id>? ORDER BY id LIMIT 1`
  unfoldable pub next_after : ℤ → List (Row A) → Option ℕ
  next_after n [] = none
  next_after n (r ∷ rs) =
      let rest = next_after n rs in if above n r.id then some (least r.id rest) else rest
