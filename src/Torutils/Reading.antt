-- ===== src/Torutils/Reading.antt =====
-- `readConnUntilLF` of internal/torutils/torutils.go.
use kothawoc.Prelude.{
  ℕ, Bytes, ◌+◌, ◌≤◌, ltb, [], ◌∷◌, ◌++◌, length, ◌==◌, if◌then◌else◌, ◌≡◌, arith, append_assoc,
  append-nil, length-append, Bool-cases, inl, inr,
}
use kothawoc.Serror.{Error, Caller, sentinel, serror, message, closed}
use kothawoc.Text.Laws.{Lacks}

-- A line of internal/torutils/torutils.go.
abbrev pub site : ℕ → Caller
site line = record { runtime_name = "torutils"; function = "torutils.go"; line = line }

-- A line without its end and what follows it; or what was read before an error.
pub data Line : Type 0 where
  got : Bytes → Bytes → Line
  failed : Bytes → Error → Line

-- `readConnUntilLF`, when `rets` is read already; the end of `conn` is an error of `Read`.
unfoldable pub read_line : Bytes → Bytes → Line
read_line rets [] = failed rets (sentinel closed)
read_line rets (c ∷ conn) =
    let rets' : Bytes = rets ++ (c ∷ []) in
    let rest = read_line rets' conn in
    if c == 10
    then got rets conn
    else if ltb 1024 (length rets')
    then failed rets' (serror (site 47) (message "READ CONN UNTIL LF OVERSIZE [%d]"))
    else rest

-- A line of at most 1024 bytes comes back as it was sent, and what follows it stays in the connection.
pub read_line_lem :
    (rets l conn : Bytes)
    → Lacks 10 l
    → length rets + length l ≤ 1024
    → read_line rets (l ++ (10 ∷ conn)) ≡ got (rets ++ l) conn
unfolding read_line
read_line_lem rets [] conn h short = ground (arith, append-nil rets)
read_line_lem rets (c ∷ l) conn h short = ground (
  arith,
  length-append rets (c ∷ []),
  append_assoc rets (c ∷ []) l,
  read_line_lem (rets ++ (c ∷ [])) l conn,
)

-- The same line, of a connection on which more follows.
abbrev pub with_more : Bytes → Line → Line
with_more y (got l rest) = got l (rest ++ y)
with_more y (failed l e) = failed l e

read_line-more :
    (rets x y : Bytes)
    → length rets ≤ 1024
    → 1025 ≤ length rets + length x
    → read_line rets (x ++ y) ≡ with_more y (read_line rets x)
unfolding read_line
read_line-more rets [] y short long = absurd (omega (arith, short, long))
read_line-more rets (c ∷ x) y short long =
    let size = length-append rets (c ∷ []) in
    elim (Bool-cases (c == 10)) [
      | inl e ↦ ground (arith, e)
      | inr e ↦ elim (Bool-cases (ltb 1024 (length (rets ++ (c ∷ []))))) [
        | inl over ↦ ground (arith, e, over)
        | inr fine ↦ ground (
          arith,
          e,
          fine,
          read_line-more (rets ++ (c ∷ [])) x y (ground (arith, fine)) (omega (arith, long, size)),
        )
      ]
    ]

-- Whatever the other side sends, a call of `readConnUntilLF` looks at the first 1025 bytes at most: with
-- more than those on the connection it gives the same line or the same error, and leaves the additional
-- bytes where they are.
pub read_line-bound :
    (x y : Bytes) → 1025 ≤ length x → read_line [] (x ++ y) ≡ with_more y (read_line [] x)
read_line-bound x y long = read_line-more [] x y (omega arith) (omega (arith, long))
