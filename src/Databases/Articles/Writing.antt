-- ===== src/Databases/Articles/Writing.antt =====
-- What a write of an article's file keeps, whether it fails or not.
use kothawoc.Prelude.{
  ℕ, zero, suc, Bytes, Bool, true, false, Option, none, some, List, [], ◌∷◌, ◌++◌, take, ◌≡◌, refl,
  ap, append-nil,
}
use kothawoc.Serror.{sentinel, io_error}
use kothawoc.Dict.{insert}
use kothawoc.Databases.State.{Store}
use kothawoc.Databases.Monad.{Outcome, ok, err}
use kothawoc.Databases.Keeps.{Keeps, FaultFree}
use kothawoc.Databases.Articles.{cut_short, write_file}

-- A text begins with a part.
abbrev pub IsBeginning : Bytes → Bytes → Type 0
IsBeginning part whole = (missing : Bytes) × (part ++ missing ≡ whole)

take-IsBeginning : (n : ℕ) (content : Bytes) → IsBeginning (take n content) content
take-IsBeginning zero content = (content, refl)
take-IsBeginning (suc n) [] = ([], refl)
take-IsBeginning (suc n) (b ∷ content) =
    let (missing, e) = take-IsBeginning n content in (missing, ap (λ (x : Bytes). b ∷ x) e)

module _ {P : Store → Type 0} (free : FaultFree P)
    (torn_free : (s : Store) (cuts : List (Option ℕ)) → P s → P (record s { torn = cuts }))
    (name content : Bytes)
    (writes : (part : Bytes)
      → IsBeginning part content
      → (s : Store) → P s
      → P (record s { files = insert name part s.files })) where
  cut_short-keeps : (s : Store) → P s → P (cut_short name content s)
  unfolding cut_short
  cut_short-keeps s h = go s.torn
    where
      go :
          (cuts : List (Option ℕ))
          → P (elim cuts as (λ _. Store) [
            | [] ↦ s
            | cut ∷ cuts' ↦ elim cut [
              | none ↦ record s { torn = cuts' }
              | some n ↦ record s { torn = cuts'; files = insert name (take n content) s.files }
            ]
          ])
      go [] = h
      go (none ∷ cuts) = torn_free s cuts h
      go (some n ∷ cuts) =
          writes (take n content) (take-IsBeginning n content) (record s { torn = cuts })
            (torn_free s cuts h)

  -- What every beginning of the text keeps, the whole one included.
  pub write_file-Keeps : Keeps P (write_file name content)
  unfolding write_file
  write_file-Keeps = record { at = λ s h. go s h s.faults }
    where
      whole : (s : Store) → P s → P (record s { files = insert name content s.files })
      whole s h = writes content ([], append-nil content) s h

      go :
          (s : Store)
          → P s
          → (fs : List Bool)
          → P
              (elim fs as (λ _. Outcome (Unit {0}) × Store) [
                | [] ↦ (ok tt, record s { files = insert name content s.files })
                | fault ∷ rest ↦ elim fault [
                  | true ↦
                      (err (sentinel io_error), cut_short name content (record s { faults = rest }))
                  | false ↦ (ok tt, record s { faults = rest; files = insert name content s.files })
                ]
              ]).1
      go s h [] = whole s h
      go s h (true ∷ rest) = cut_short-keeps (record s { faults = rest }) (free s rest h)
      go s h (false ∷ rest) = whole (record s { faults = rest }) (free s rest h)
