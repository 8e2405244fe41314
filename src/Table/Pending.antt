-- ===== src/Table/Pending.antt =====
-- The numbers past a bound, in their order, and what `next_after` has to do with them.
use kothawoc.Prelude.{
  ℕ, ◌⊎◌, if◌then◌else◌, ◌≤◌, ◌<◌, Bool, true, false, Option, none, some, List, [], ◌∷◌, All, ◌≡◌,
  refl, arith, inl, inr, ltb, ◌==◌, Bool-cases,
}
use kothawoc.Prelude.Int.{ℤ, pos}
use kothawoc.Table.{Row, above, least, next_after}
use kothawoc.Table.Queue.{IsNext, next_after-IsNext}

-- A number put into an ascending list without repetitions.
unfoldable pub put : ℕ → List ℕ → List ℕ
put i [] = i ∷ []
put i (j ∷ js) =
    let rest = put i js in if ltb i j then i ∷ (j ∷ js) else if i == j then j ∷ js else j ∷ rest

above-above : (n : ℤ) (m i : ℕ) → above n m ≡ true → above (pos m) i ≡ true → above n i ≡ true
above-above n m i h k = ground arith

module _ {A : Type 0} where
  -- The numbers past the bound, in ascending order.
  unfoldable pub pending : ℤ → List (Row A) → List ℕ
  unfolding put
  pending n [] = []
  pending n (r ∷ rs) = let rest = pending n rs in if above n r.id then put r.id rest else rest

  -- Two bounds with the same numbers past them.
  same_pending :
      (n m : ℤ) (rs : List (Row A))
      → All (λ r. above n r.id ≡ above m r.id) rs
      → pending n rs ≡ pending m rs
  unfolding pending
  same_pending n m [] h = refl
  same_pending n m (r ∷ rs) h = ground (arith, same_pending n m rs h.1, h.0)

  none_pending :
      (n : ℤ) (rs : List (Row A)) → All (λ r. above n r.id ≡ false) rs → pending n rs ≡ []
  unfolding pending
  none_pending n [] h = refl
  none_pending n (r ∷ rs) h = ground (arith, none_pending n rs h.1, h.0)

  below_same :
      (n : ℤ) (i m : ℕ) (rs : List (Row A))
      → above n i ≡ true
      → i < m
      → All (λ r. (above n r.id ≡ false) ⊎ (m ≤ r.id)) rs
      → All (λ r. above n r.id ≡ above (pos i) r.id) rs
  below_same n i m [] past less h = tt
  below_same n i m (r ∷ rs) past less (h, hs) = (
    elim h [ inl low ↦ ground (arith, low, past) | inr high ↦ ground (arith, high, less, past) ],
    below_same n i m rs past less hs,
  )

  above_none :
      (n : ℤ) (m : ℕ) (rs : List (Row A))
      → above n m ≡ true
      → All (λ r. above n r.id ≡ false) rs
      → All (λ r. above (pos m) r.id ≡ false) rs
  above_none n m [] past h = tt
  above_none n m (r ∷ rs) past h = (ground (arith, past, h.0), above_none n m rs past h.1)

  -- What `next_after` finds stands first among the numbers past the bound, and what is past it follows.
  abbrev pub FromHead : ℤ → List (Row A) → Option ℕ → Type 0
  FromHead n rs none = pending n rs ≡ []
  FromHead n rs (some m) = pending n rs ≡ m ∷ pending (pos m) rs

  head_step :
      (n : ℤ) (r : Row A) (rs : List (Row A)) (b : Bool) (o : Option ℕ)
      → above n r.id ≡ b
      → IsNext n rs o
      → FromHead n rs o
      → FromHead n (r ∷ rs) (if b then some (least r.id o) else o)
  unfolding pending put
  head_step n r rs true none e next ih =
      ground (arith, e, ih, none_pending (pos r.id) rs (above_none n r.id rs e next))
  head_step n r rs false none e next ih = ground (arith, e, ih)
  head_step n r rs false (some m) e next ih = ground (arith, e, ih, next.0)
  head_step n r rs true (some m) e next ih = elim (Bool-cases (ltb r.id m)) [
    | inl less ↦ ground (
      arith,
      e,
      ih,
      less,
      same_pending n (pos r.id) rs (below_same n r.id m rs e (ground (arith, less)) next.1),
    )
    | inr more ↦ elim (Bool-cases (r.id == m)) [
      | inl same ↦ ground (arith, e, ih, more, same)
      | inr other ↦ ground (arith, e, ih, more, other)
    ]
  ]

  pub pending-next_after : (n : ℤ) (rs : List (Row A)) → FromHead n rs (next_after n rs)
  unfolding next_after pending
  pending-next_after n [] = refl
  pending-next_after n (r ∷ rs) =
      head_step n r rs (above n r.id) (next_after n rs) refl (next_after-IsNext n rs)
        (pending-next_after n rs)
