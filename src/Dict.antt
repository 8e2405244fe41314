-- ===== src/Dict.antt =====
-- A Go map keyed by strings, and a two-column SQL table whose first column is UNIQUE.
pub mod Entries
use kothawoc.Prelude.{
  ℕ, Bytes, beq, beq_iff, beq_self, ◌≡◌, refl, ◌≢◌, Option, none, some, List, [], ◌∷◌, arith, ◌==◌,
  if◌then◌else◌,
}

abbrev pub Dict {ℓ} : Type ℓ → Type ℓ
Dict V = List (Bytes × V)

module _ {ℓ} {V : Type ℓ} where
  unfoldable pub lookup : Bytes → Dict V → Option V
  lookup k [] = none
  lookup k ((j, v) ∷ d) = if beq j k then some v else lookup k d

  -- `d[k] = v`, and `INSERT OR REPLACE`.
  unfoldable pub insert : Bytes → V → Dict V → Dict V
  insert k v [] = (k, v) ∷ []
  insert k v ((j, w) ∷ d) = if beq j k then (k, v) ∷ d else (j, w) ∷ insert k v d

  pub lookup-insert :
      (k j : Bytes) (v : V) (d : Dict V)
      → lookup j (insert k v d) ≡ (if beq k j then some v else lookup j d)
  unfolding lookup insert
  lookup-insert k j v [] = refl
  lookup-insert k j v ((i, w) ∷ d) =
      ground (arith, beq_iff k j, beq_iff i k, beq_iff i j, lookup-insert k j v d)

  pub lookup-insert_self : (k : Bytes) (v : V) (d : Dict V) → lookup k (insert k v d) ≡ some v
  lookup-insert_self k v d = simp (lookup-insert, beq_self)

  pub lookup-insert_ne :
      (k j : Bytes) (v : V) (d : Dict V) → k ≢ j → lookup j (insert k v d) ≡ lookup j d
  lookup-insert_ne k j v d h = ground (arith, lookup-insert k j v d, beq_iff k j)

-- Files of the disk, by number.
abbrev pub Disk : Type 0 → Type 0
Disk V = List (ℕ × V)

module _ {V : Type 0} where
  unfoldable pub open_file : ℕ → Disk V → Option V
  open_file n [] = none
  open_file n ((m, v) ∷ d) = if m == n then some v else open_file n d

  unfoldable pub write_file : ℕ → V → Disk V → Disk V
  write_file n v [] = (n, v) ∷ []
  write_file n v ((m, w) ∷ d) = if m == n then (n, v) ∷ d else (m, w) ∷ write_file n v d

  pub open_file-write_file :
      (n m : ℕ) (v : V) (d : Disk V)
      → open_file m (write_file n v d) ≡ (if n == m then some v else open_file m d)
  unfolding open_file write_file
  open_file-write_file n m v [] = refl
  open_file-write_file n m v ((i, w) ∷ d) = ground (arith, open_file-write_file n m v d)
