-- ===== src/Messages/Delivery/Scanning.antt =====
-- The search of `ParseBody` for the first boundary.
use kothawoc.Prelude.{
  ℕ, Bytes, codes, true, false, some, List, [], ◌∷◌, ◌++◌, ◌==◌, All, ◌≡◌, refl, arith, inl, inr,
  append_assoc, append-nil, Bool-cases,
}
use mathlib.Core.Path.{subst}
use kothawoc.Text.{has_prefix, split, push}
use kothawoc.Text.Laws.{Lacks}
use kothawoc.Messages.Mime.{Library}
use kothawoc.Messages.Delivery.{Unmarked}
use kothawoc.Messages.Body.{scan_lines, split_at, chomp}

pub has_prefix-append : (p s : Bytes) → has_prefix p (p ++ s) ≡ true
unfolding has_prefix
has_prefix-append [] s = refl
has_prefix-append (c ∷ p) s = ground (arith, has_prefix-append p s)

-- Does no line begin with the mark, the first of which is read up to here?
abbrev Clear : Bytes → Bytes → List Bytes → Type 0
Clear mark line [] = Unit
Clear mark line (p ∷ ps) =
    (has_prefix mark ((line ++ p) ++ (10 ∷ [])) ≡ false)
    × All (λ q. has_prefix mark (q ++ (10 ∷ [])) ≡ false) ps

Clear-push :
    (mark line : Bytes) (c : ℕ) (ps : List Bytes)
    → Clear mark line (push c ps)
    → Clear mark (line ++ (c ∷ [])) ps
Clear-push mark line c [] h = tt
Clear-push mark line c (p ∷ ps) h = (ground (arith, h.0, append_assoc line (c ∷ []) p), h.1)

Clear-nil :
    (mark : Bytes) (ps : List Bytes)
    → All (λ q. has_prefix mark (q ++ (10 ∷ [])) ≡ false) ps
    → Clear mark [] ps
Clear-nil mark [] h = tt
Clear-nil mark (p ∷ ps) h = h

Clear-end :
    (mark line text : Bytes) (c : ℕ)
    → (c == 10) ≡ true
    → Clear mark line (split 10 (c ∷ text))
    → (has_prefix mark (line ++ (10 ∷ [])) ≡ false) × Clear mark [] (split 10 text)
unfolding split
Clear-end mark line text c e h =
    let h' : Clear mark line ([] ∷ split 10 text) =
      subst (λ q. Clear mark line q) {y = [] ∷ split 10 text} (rw e refl) h in
    (ground (arith, h'.0, append-nil line), Clear-nil mark (split 10 text) h'.1)

Clear-byte :
    (mark line text : Bytes) (c : ℕ)
    → (c == 10) ≡ false
    → Clear mark line (split 10 (c ∷ text))
    → Clear mark (line ++ (c ∷ [])) (split 10 text)
unfolding split
Clear-byte mark line text c e h =
    Clear-push mark line c (split 10 text)
      (subst (λ q. Clear mark line q) {y = push c (split 10 text)} (rw e refl) h)

module _ (l : Library) where
  pub chomp-line : (s : Bytes) → chomp l (s ++ (10 ∷ [])) ≡ some s
  unfolding chomp
  chomp-line [] = refl
  chomp-line (c ∷ []) = refl
  chomp-line (c ∷ (d ∷ s)) = ground (arith, chomp-line (d ∷ s))

module _ (l : Library) (b : Bytes) where
  -- The line of the boundary itself.
  scan_lines-mark :
      (before line x s : Bytes)
      → Lacks 10 x
      → has_prefix (codes "--" ++ b) ((line ++ x) ++ (10 ∷ [])) ≡ true
      → scan_lines l (some b) before line (x ++ (10 ∷ s))
        ≡ split_at before ((line ++ x) ++ (10 ∷ s))
  unfolding scan_lines
  scan_lines-mark before line [] s h p = ground (arith, append-nil line)
  scan_lines-mark before line (c ∷ x) s h p =
      ground
        (arith, append_assoc line (c ∷ []) x, scan_lines-mark before (line ++ (c ∷ [])) x s h.1)

  -- A text without the mark is passed, up to the line of the boundary behind it.
  scan_lines-text :
      (before line text s : Bytes)
      → Lacks 10 b
      → Clear (codes "--" ++ b) line (split 10 text)
      → scan_lines l (some b) before line (text ++ (10 ∷ ((codes "--" ++ b) ++ (10 ∷ s))))
        ≡ split_at (before ++ ((line ++ text) ++ (10 ∷ []))) ((codes "--" ++ b) ++ (10 ∷ s))
  unfolding scan_lines split
  scan_lines-text before line [] s one clear =
      let x : Bytes = codes "--" ++ b in
      ground (
        arith,
        append-nil line,
        clear.0,
        scan_lines-mark (before ++ (line ++ (10 ∷ []))) [] x s
            (λ e. omega (arith, e), (λ e. omega (arith, e), one)) (has_prefix-append x (10 ∷ [])),
      )
  scan_lines-text before line (c ∷ text) s one clear = elim (Bool-cases (c == 10)) [
    | inl e ↦
        let (first, rest) = Clear-end (codes "--" ++ b) line text c e clear in
        let next : Bytes = line ++ (10 ∷ []) in
        ground (
          arith,
          e,
          first,
          scan_lines-text (before ++ next) [] text s one rest,
          append_assoc before next (text ++ (10 ∷ [])),
          append_assoc line (10 ∷ []) (text ++ (10 ∷ [])),
          append_assoc line (10 ∷ text) (10 ∷ []),
        )
    | inr e ↦
        let rest : Clear (codes "--" ++ b) (line ++ (c ∷ [])) (split 10 text) =
          Clear-byte (codes "--" ++ b) line text c e clear in
        ground (
          arith,
          e,
          scan_lines-text before (line ++ (c ∷ [])) text s one rest,
          append_assoc line (c ∷ []) text,
        )
  ]

  pub scan_lines-Unmarked :
      (text s : Bytes)
      → Lacks 10 b
      → Unmarked b text
      → scan_lines l (some b) [] [] (text ++ (10 ∷ ((codes "--" ++ b) ++ (10 ∷ s))))
        ≡ split_at (text ++ (10 ∷ [])) ((codes "--" ++ b) ++ (10 ∷ s))
  scan_lines-Unmarked text s one clear =
      scan_lines-text [] [] text s one (Clear-nil (codes "--" ++ b) (split 10 text) clear)
