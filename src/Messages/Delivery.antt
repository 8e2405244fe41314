-- ===== src/Messages/Delivery.antt =====
-- A message that is written, carried to another node and read there by `ParseBody`.
pub mod Scanning
pub mod Verified
use kothawoc.Prelude.{
  ℕ, Bytes, codes, Bool, ◌||◌, ◌==◌, ◌≢◌, true, false, none, some, List, [], ◌∷◌, ◌++◌, All, ◌≡◌,
  refl, arith, ap, ◌∙◌, sym, append_assoc,
}
use kothawoc.Text.{has_prefix, split}
use kothawoc.Text.Laws.{Lacks}
use kothawoc.Messages.{MimePart}
use kothawoc.Messages.Mime.{
  without_returns, normal, line_end, boundary_byte, boundary_bytes, mem, is_boundary, fields,
  sorted, parts_text, multipart,
}

-- No line of the text begins with the mark of the boundary.
abbrev pub Unmarked : Bytes → Bytes → Type 0
Unmarked b s = All (λ line. has_prefix (codes "--" ++ b) (line ++ (10 ∷ [])) ≡ false) (split 10 s)

pub without_returns-append :
    (s t : Bytes) → without_returns (s ++ t) ≡ without_returns s ++ without_returns t
unfolding without_returns
without_returns-append [] t = refl
without_returns-append (c ∷ s) t = ground (arith, without_returns-append s t)

pub without_returns-Lacks : (s : Bytes) → Lacks 13 s → without_returns s ≡ s
unfolding without_returns
without_returns-Lacks [] h = refl
without_returns-Lacks (c ∷ s) h = ground (arith, without_returns-Lacks s h.1)

-- A byte of a boundary, or a space, does not end a line.
ends_no_line : (c : ℕ) → ((boundary_byte c || c == 32) ≡ true) → (c ≢ 13) × (c ≢ 10)
unfolding boundary_byte mem
ends_no_line c h = (λ e. ground (arith, e), λ e. ground (arith, e))

boundary_bytes-Lacks : (s : Bytes) → boundary_bytes s ≡ true → Lacks 13 s × Lacks 10 s
unfolding boundary_bytes
boundary_bytes-Lacks [] h = (tt, tt)
boundary_bytes-Lacks (c ∷ []) h =
    let (r, n) = ends_no_line c (ground (arith, h)) in ((r, tt), (n, tt))
boundary_bytes-Lacks (c ∷ (d ∷ s)) h =
    let (r, n) = ends_no_line c (ground (arith, h)) in
    let (rs, ns) = boundary_bytes-Lacks (d ∷ s) (ground (arith, h)) in ((r, rs), (n, ns))

pub is_boundary-Lacks : (b : Bytes) → is_boundary b ≡ true → Lacks 13 b × Lacks 10 b
unfolding is_boundary
is_boundary-Lacks b h = boundary_bytes-Lacks b (ground (arith, h))

first_line :
    (b x t : Bytes)
    → Lacks 13 b
    → without_returns ((codes "--" ++ (b ++ (line_end ++ x))) ++ t)
      ≡ (codes "--" ++ b) ++ (10 ∷ without_returns (x ++ t))
first_line b x t h =
    let u : Bytes = b ++ (line_end ++ (x ++ t)) in
    let ends : without_returns (line_end ++ (x ++ t)) ≡ 10 ∷ without_returns (x ++ t) =
      (unfold without_returns in refl) in
    let starts : without_returns (codes "--" ++ u) ≡ codes "--" ++ without_returns u =
      (unfold without_returns in refl) in
    ground (
      arith,
      append_assoc b (line_end ++ x) t,
      without_returns-append b (line_end ++ (x ++ t)),
      without_returns-Lacks b h,
      ends,
      starts,
    )

-- The text of several parts, once its carriage returns are gone, begins with the line of the boundary.
pub multipart-starts :
    (b : Bytes) (p : MimePart) (ps : List MimePart)
    → Lacks 13 b
    → (s : Bytes) × (without_returns (multipart b (p ∷ ps)) ≡ (codes "--" ++ b) ++ (10 ∷ s))
unfolding multipart parts_text
multipart-starts b p ps h =
    let x : Bytes =
      fields (sorted p.header) ++ (line_end ++ (normal p.content ++ parts_text b line_end ps)) in
    let t : Bytes = line_end ++ (codes "--" ++ (b ++ (codes "--" ++ line_end))) in
    (without_returns (x ++ t), first_line b x t h)
