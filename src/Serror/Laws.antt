-- ===== src/Serror/Laws.antt =====
-- What `errors.Is` finds in the errors that `New` and `Wrap` make.
use kothawoc.Prelude.{Bool, ◌||◌, Option, none, some, List, [], ◌∷◌, ◌≡◌, refl, ap, ◌∙◌}
use kothawoc.Serror.{
  Sentinel, Error, Errors, nil, cons, Caller, non_empty, inner, wrap, keep, is, any_is, is_one_of,
}

any_is-keep : (t : Sentinel → Bool) (es : List (Option Error)) → any_is t (keep es) ≡ is_one_of t es
unfolding keep any_is is_one_of
any_is-keep t [] = refl
any_is-keep t (none ∷ es) = any_is-keep t es
any_is-keep t (some e ∷ es) = ap (λ b. is t e || b) (any_is-keep t es)

is-inner : (t : Sentinel → Bool) (es : Errors) → is t (inner (non_empty es)) ≡ any_is t es
unfolding is any_is
is-inner t nil = refl
is-inner t (cons e es) = refl

-- A wrapped error is a sentinel exactly when one of the errors it was made of is; nil arguments
-- count for nothing.
pub is-wrap :
    (t : Sentinel → Bool) (c : Caller) (es : List (Option Error))
    → is t (wrap c es) ≡ is_one_of t es
unfolding wrap is
is-wrap t c es = is-inner t (keep es) ∙ any_is-keep t es
