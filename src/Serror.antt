-- ===== src/Serror.antt =====
-- pkg/serror/serror.go: errors that carry the place of the call that made them, and the errors of
-- the libraries that the program compares against. `errors.Is` follows `Unwrap`.
pub mod Laws
use kothawoc.Prelude.{ℕ, String, Bytes, Bool, true, false, ◌||◌, Option, none, some, List, [], ◌∷◌}

-- The errors that carry no other error. `io_error` is any failure of the disk, of SQLite or of the
-- system that the program does not look into.
pub data Sentinel : Type 0 where
  io_error no_rows constraint syntax_error no_such_table bad_scan : Sentinel
  no_such_group invalid_article_number not_authenticated posting_failed posting_not_permitted :
      Sentinel
  bad_message closed : Sentinel
  no_key public_key tor_public_key tor_private_key : Sentinel
  invalid_certificate invalid_key invalid_public_key invalid_key_type : Sentinel
  invalid_ssh_authorized_key invalid_ssh_public_key invalid_ssh_private_key invalid_tor_id :
      Sentinel
  failed_to_generate_certificate : Sentinel

-- What `runtime.Caller(1)` gives.
pub record Caller : Type 0 where
  pub runtime_name : String
  pub function : String
  pub line : ℕ

mutual
  -- `serror` is a `Serror` value, `joined` a value of `errors.Join`, `message` one of `fmt.Errorf`.
  pub data Error : Type 0 where
    sentinel : Sentinel → Error
    message : String → Error
    joined : Errors → Error
    serror : Caller → Error → Error

  pub data Errors : Type 0 where
    nil : Errors
    cons : Error → Errors → Errors

-- `Serror.Unwrap`; a value of another type has nothing inside, or a list of errors.
unfoldable pub unwrap : Error → Option Error
unwrap (serror _ (joined nil)) = none
unwrap (serror _ e) = some e
unwrap (sentinel _) = none
unwrap (message _) = none
unwrap (joined _) = none

-- `Serror.Line`
unfoldable pub line_of : Error → Option ℕ
line_of (serror c _) = some c.line
line_of (sentinel _) = none
line_of (message _) = none
line_of (joined _) = none

-- `serr.New`: nil stays nil.
unfoldable pub new : Caller → Option Error → Option Error
new c none = none
new c (some e) = some (serror c e)

-- The result of `errors.Join`, and what a `Serror` holds for it.
abbrev pub non_empty : Errors → Option Error
non_empty nil = none
non_empty (cons e es) = some (joined (cons e es))

abbrev pub inner : Option Error → Error
inner none = joined nil
inner (some e) = e

-- `errors.Join` drops the nil arguments; it is nil itself when all are.
unfoldable pub keep : List (Option Error) → Errors
keep [] = nil
keep (none ∷ es) = keep es
keep (some e ∷ es) = cons e (keep es)

unfoldable pub join : List (Option Error) → Option Error
unfolding keep
join es = non_empty (keep es)

-- `serr.Wrap`. The inner error of a `Serror` may be nil, and then it holds nothing.
unfoldable pub wrap : Caller → List (Option Error) → Error
unfolding join
wrap c es = serror c (inner (join es))

-- The arguments of `serr.Errorf`, by the tests that it makes of them.
pub data ErrorfArgs : Type 0 where
  single_nil : ErrorfArgs
  not_a_format : ErrorfArgs
  format : String → ErrorfArgs

-- `serr.Errorf`; `fmt.Errorf` is applied to the format alone, its operands being for display.
unfoldable pub errorf : Caller → ErrorfArgs → Option Error
errorf c single_nil = none
errorf c not_a_format = some (serror c (message "Error making error"))
errorf c (format f) = some (serror c (message f))

-- `errors.Is` against a sentinel, which is given as a test.
unfoldable mutual
  pub is : (Sentinel → Bool) → Error → Bool
  is t (sentinel s) = t s
  is t (message _) = false
  is t (joined es) = any_is t es
  is t (serror _ e) = is t e

  pub any_is : (Sentinel → Bool) → Errors → Bool
  any_is t nil = false
  any_is t (cons e es) = is t e || any_is t es

-- The same over a list of error values, some of which are nil.
pub is_one_of : (Sentinel → Bool) → List (Option Error) → Bool
is_one_of t [] = false
is_one_of t (none ∷ es) = is_one_of t es
is_one_of t (some e ∷ es) = is t e || is_one_of t es
