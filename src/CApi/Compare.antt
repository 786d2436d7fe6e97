-- ===== src/CApi/Compare.antt =====
-- How the tests of `parse_os_args` look at the arguments that it gives (capi/src/lib.rs).
use tansiv.Base.{
  ℕ, suc, ◌+◌, ◌≤◌, ◌≡◌, refl, ap, ◌∙◌, ◌==◌, ltb, true, false, List, [], ◌∷◌, ◌++◌, arith,
  if◌then◌else◌, Bool-cases, inl, inr, length, length-append, Result, ok, err, panicked,
}
use tansiv.Error.{Error, invalid_input, from_io_error}
use tansiv.CApi.{Arg, same_arg, dashes, parse_os_args}
use tansiv.CApi.Laws.{before_dashes, behind_dashes, parse_os_args_lem}

-- How many pairs the closure of `all` has looked at.
unfoldable pub compared : List Arg → List Arg → ℕ
compared [] args = 0
compared (r ∷ raw) [] = 0
compared (r ∷ raw) (a ∷ args) = let rest = compared raw args in if same_arg r a then suc rest else 1

unfoldable pub parse_args_compare : List Arg → List Arg → ℕ → Result Error (Unit {0})
unfolding compared from_io_error
parse_args_compare raw_args args num_required_args =
    let count = compared raw_args args in
    if ltb (length raw_args) num_required_args
    then panicked
    else if num_required_args == count
    then ok tt
    else err (from_io_error invalid_input)

same_arg_refl : (a : Arg) → same_arg a a ≡ true
same_arg_refl [] = refl
same_arg_refl (x ∷ xs) = ground (arith, same_arg_refl xs)

-- Arguments that agree with the first of the raw ones are all looked at.
compared-append :
    (xs ys : List Arg) (args : List Arg)
    → compared (xs ++ ys) (xs ++ args) ≡ length xs + compared ys args
unfolding compared
compared-append [] ys args = omega arith
compared-append (x ∷ xs) ys args =
    rw (compared, same_arg_refl x) (ap suc (compared-append xs ys args) ∙ omega arith)

before_dashes-compared :
    (argv : List Arg) → compared argv (before_dashes argv) ≡ length (before_dashes argv)
unfolding compared
before_dashes-compared [] = refl
before_dashes-compared (a ∷ rest) = elim (Bool-cases (same_arg a dashes)) [
  | inl found ↦ rw found refl
  | inr other ↦
      rw other (rw (compared, same_arg_refl a) (ap suc (before_dashes-compared rest) ∙ omega arith))
]

length-before_dashes : (argv : List Arg) → length (before_dashes argv) ≤ length argv
length-before_dashes [] = omega arith
length-before_dashes (a ∷ rest) = ground (arith, length-before_dashes rest)

-- What the five tests of `parse_os_args` look for, for any arguments: it gives those in front of the
-- first "--", as `parse_args_compare` finds, and the index behind it, or that of the end.
pub parse_os_args-parse_args_compare :
    (argv : List Arg)
    → parse_os_args argv (λ args. parse_args_compare argv args (length (before_dashes argv)))
      ≡ ok (tt, behind_dashes argv 0)
unfolding parse_args_compare
parse_os_args-parse_args_compare argv =
    parse_os_args_lem argv (λ args. parse_args_compare argv args (length (before_dashes argv)))
      (ground (arith, before_dashes-compared argv, length-before_dashes argv))

-- The comparison takes no notice of the last of the required arguments: the count is raised before the
-- two are compared, so that whatever it is given there it succeeds.
pub parse_args_compare-blind :
    (xs ys args : List Arg) (x a : Arg)
    → same_arg x a ≡ false
    → parse_args_compare (xs ++ x ∷ ys) (xs ++ a ∷ args) (length xs + 1) ≡ ok tt
unfolding parse_args_compare compared
parse_args_compare-blind xs ys args x a differ =
    let count : compared (xs ++ x ∷ ys) (xs ++ a ∷ args) ≡ length xs + 1 =
      compared-append xs (x ∷ ys) (a ∷ args) ∙ rw differ refl in
    ground (arith, count, length-append xs (x ∷ ys))
