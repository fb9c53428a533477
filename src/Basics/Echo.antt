-- ===== src/Basics/Echo.antt =====
-- What my_echo.c prints.
use sem.Prelude.{
  ℕ, ◌+◌, ◌-◌, ◌≡◌, refl, arith, true, false, List, [], ◌∷◌, ◌++◌, length, ◌==◌, if◌then◌else◌,
}
use sem.Basics.{same_string, echo_loop, echo_call}
use mathlib.Core.List.{append-nil}

-- Words with a space between each two.
abbrev pub joined : List (List ℕ) → List ℕ
joined [] = []
joined (arg ∷ []) = arg
joined (arg ∷ next ∷ args) = arg ++ (b' ' ∷ joined (next ∷ args))

echo_loop_lem :
    (args : List (List ℕ)) (argc i : ℕ)
    → i + length args ≡ argc
    → echo_loop argc args i ≡ joined args
unfolding echo_loop
echo_loop_lem [] argc i e = refl
echo_loop_lem (arg ∷ []) argc i e =
    let last : (i == argc - 1) ≡ true = ground arith in rw last (append-nil arg)
echo_loop_lem (arg ∷ next ∷ args) argc i e =
    let inner : (i == argc - 1) ≡ false = ground arith in
    rw (inner, echo_loop_lem (next ∷ args) argc (i + 1) (omega arith)) refl

-- The arguments are printed with a space between each two, and then the end of the line; after a first
-- argument `-n` the others alone.
pub echo_call_lem :
    (arg : List ℕ) (args : List (List ℕ))
    → echo_call (arg ∷ args) ≡ (
        if same_string arg (b'-' ∷ b'n' ∷ [])
        then joined args
        else joined (arg ∷ args) ++ (10 ∷ []))
unfolding echo_call
echo_call_lem arg args =
    rw
      (
        echo_loop_lem args (length args + 2) 2 (omega arith),
        echo_loop_lem (arg ∷ args) (length args + 2) 1 (omega arith),
      )
      refl
