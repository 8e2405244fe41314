-- ===== src/Text/Laws.antt =====
-- `Split` and `Join` undo each other.
use kothawoc.Prelude.{
  ℕ, Bytes, [], ◌∷◌, ◌++◌, List, All, ◌≡◌, ◌≢◌, refl, arith, ◌==◌, ap, Bool-cases, inl, inr,
}
use kothawoc.Text.{push, split, join}

abbrev pub Lacks : ℕ → Bytes → Type 0
Lacks b = All (λ c. c ≢ b)

join-push : (sep : Bytes) (c : ℕ) (ps : List Bytes) → join sep (push c ps) ≡ c ∷ join sep ps
unfolding join
join-push sep c [] = refl
join-push sep c (p ∷ []) = refl
join-push sep c (p ∷ (q ∷ ps)) = refl

join-nil-cons :
    (sep : ℕ) (p : Bytes) (ps : List Bytes)
    → join (sep ∷ []) ([] ∷ (p ∷ ps)) ≡ sep ∷ join (sep ∷ []) (p ∷ ps)
unfolding join
join-nil-cons sep p ps = refl

pub split-cons : (sep : ℕ) (s : Bytes) → (p : Bytes) × (ps : List Bytes) × (split sep s ≡ p ∷ ps)
unfolding split
split-cons sep [] = ([], [], refl)
split-cons sep (c ∷ s) = elim (Bool-cases (c == sep)) [
  | inl e ↦ ([], split sep s, rw e)
  | inr e ↦ let (p, ps, q) = split-cons sep s in (c ∷ p, ps, rw (e, q))
]

-- Joining the parts of a split gives the text back, for every text.
pub join-split : (sep : ℕ) (s : Bytes) → join (sep ∷ []) (split sep s) ≡ s
unfolding split
join-split sep [] = unfold join in refl
join-split sep (c ∷ s) = elim (Bool-cases (c == sep)) [
  | inl e ↦
      let (p, ps, q) = split-cons sep s in
      ground (arith, join-split sep s, q, join-nil-cons sep p ps)
  | inr e ↦ rw (e, join-push) (ap (λ t. c ∷ t) (join-split sep s))
]

-- Splitting a text that begins with a part without separators.
pub split-part_sep :
    (sep : ℕ) (p s : Bytes) → Lacks sep p → split sep (p ++ (sep ∷ s)) ≡ p ∷ split sep s
unfolding split
split-part_sep sep [] s h = ground arith
split-part_sep sep (c ∷ p) s h = ground (arith, split-part_sep sep p s h.1)

pub split-part : (sep : ℕ) (p : Bytes) → Lacks sep p → split sep p ≡ p ∷ []
unfolding split
split-part sep [] h = refl
split-part sep (c ∷ p) h = ground (arith, split-part sep p h.1)
