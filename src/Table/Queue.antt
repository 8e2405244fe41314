-- ===== src/Table/Queue.antt =====
-- `next_after` finds the first number past a bound.
use kothawoc.Prelude.{
  ℕ, ◌⊎◌, if◌then◌else◌, ◌≤◌, Bool, true, false, Option, none, some, List, [], ◌∷◌, All, ◌≡◌, refl,
  arith, inl, inr,
}
use kothawoc.Prelude.Int.{ℤ}
use kothawoc.Table.Laws.{All-mono}
use kothawoc.Table.{Row, above, least, next_after}

least-le : (a m : ℕ) → (least a (some m) ≤ a) × (least a (some m) ≤ m)
least-le a m = ground arith

above-least :
    (n : ℤ) (a m : ℕ) → above n a ≡ true → above n m ≡ true → above n (least a (some m)) ≡ true
above-least n a m h k = ground arith

module _ {A : Type 0} where
  -- What `next_after` promises: the first number past the bound, if there is one.
  abbrev pub IsNext : ℤ → List (Row A) → Option ℕ → Type 0
  IsNext n rs none = All (λ r. above n r.id ≡ false) rs
  IsNext n rs (some m) = (above n m ≡ true) × All (λ r. (above n r.id ≡ false) ⊎ (m ≤ r.id)) rs

  -- One more row in front.
  step :
      (n : ℤ) (r : Row A) (rs : List (Row A)) (b : Bool) (o : Option ℕ)
      → above n r.id ≡ b
      → IsNext n rs o
      → IsNext n (r ∷ rs) (if b then some (least r.id o) else o)
  step n r rs true none e ih = (
    e,
    (
      inr (omega arith),
      All-mono (λ q. above n q.id ≡ false) (λ q. (above n q.id ≡ false) ⊎ (r.id ≤ q.id)) rs
          (λ q h. inl h) ih,
    ),
  )
  step n r rs true (some m) e ih = (
    above-least n r.id m e ih.0,
    (
      inr (least-le r.id m).0,
      All-mono (λ q. (above n q.id ≡ false) ⊎ (m ≤ q.id))
          (λ q. (above n q.id ≡ false) ⊎ (least r.id (some m) ≤ q.id)) rs
          (λ q h. elim h [ inl x ↦ inl x | inr y ↦ inr (omega (arith, (least-le r.id m).1)) ]) ih.1,
    ),
  )
  step n r rs false none e ih = (e, ih)
  step n r rs false (some m) e ih = (ih.0, (inl e, ih.1))

  -- The result lies past the bound, and no number past the bound lies below it; there is none exactly
  -- when no number lies past the bound.
  pub next_after-IsNext : (n : ℤ) (rs : List (Row A)) → IsNext n rs (next_after n rs)
  unfolding next_after
  next_after-IsNext n [] = tt
  next_after-IsNext n (r ∷ rs) =
      step n r rs (above n r.id) (next_after n rs) refl (next_after-IsNext n rs)
