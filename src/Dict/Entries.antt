-- ===== src/Dict/Entries.antt =====
-- What holds of every entry of a map.
use kothawoc.Prelude.{
  Bytes, beq, beq→eq, Bool, true, false, some, [], ◌∷◌, All, ◌≡◌, arith, Bool-cases, inl, inr,
  if◌then◌else◌,
}
use mathlib.Core.Path.{subst}
use kothawoc.Dict.{Dict, lookup, insert}

module _ {V : Type 0} (G : Bytes → V → Type 0) where
  -- Every entry of a map has a property.
  abbrev pub Entries : Dict V → Type 0
  Entries = All (λ e. G e.0 e.1)

  pub Entries-insert : (k : Bytes) (v : V) (d : Dict V) → G k v → Entries d → Entries (insert k v d)
  unfolding insert
  Entries-insert k v [] g h = (g, tt)
  Entries-insert k v ((j, w) ∷ d) g h = go (beq j k) (Entries-insert k v d g h.1)
    where
      go :
          (b : Bool)
          → Entries (insert k v d)
          → Entries (if b then (k, v) ∷ d else (j, w) ∷ insert k v d)
      go true rest = (g, h.1)
      go false rest = (h.0, rest)

  pub Entries-lookup : (k : Bytes) (v : V) (d : Dict V) → Entries d → lookup k d ≡ some v → G k v
  unfolding lookup
  Entries-lookup k v [] h e = absurd (ground (arith, e))
  Entries-lookup k v ((j, w) ∷ d) h e = elim (Bool-cases (beq j k)) [
    | inl same ↦
        subst (λ i. G i v) (beq→eq j k same) (subst (λ x. G j x) (ground (arith, e, same)) h.0)
    | inr other ↦ Entries-lookup k v d h.1 (ground (arith, e, other))
  ]
