-- ===== src/Basics.antt =====
-- 1sem/my_echo.c and 4sem/my_fork.c: what the arguments print, and how many processes fork makes.
pub mod Echo
pub mod Forks
pub mod Column
mod Tests
use sem.Prelude.{
  ℕ, zero, suc, ◌+◌, ◌-◌, Bool, true, false, not, ◌&&◌, List, [], ◌∷◌, ◌++◌, length, ◌==◌,
  if◌then◌else◌,
}

-- `strcmp(a, b) == 0`
unfoldable pub same_string : List ℕ → List ℕ → Bool
same_string [] [] = true
same_string (a ∷ cs) (b ∷ ds) = (a == b) && same_string cs ds
same_string cs ds = false

-- The loop of `echo_call` from argv[i] on.
unfoldable pub echo_loop : ℕ → List (List ℕ) → ℕ → List ℕ
echo_loop argc [] i = []
echo_loop argc (arg ∷ args) i =
    let rest = echo_loop argc args (i + 1) in
    arg ++ ((if not (i == argc - 1) then b' ' ∷ [] else []) ++ rest)

-- What `echo_call` prints; `args` is argv from argv[1] on, and `argc` is one more than its length.
unfoldable pub echo_call : List (List ℕ) → List ℕ
echo_call [] = 10 ∷ []
echo_call (arg ∷ args) =
    let argc = length args + 2 in
    if same_string arg (b'-' ∷ b'n' ∷ [])
    then echo_loop argc args 2
    else echo_loop argc (arg ∷ args) 1 ++ (10 ∷ [])

-- A process, with the children that it is: from `main`, the round of a loop in which it was made.
pub data Process : Type 0 where
  parent : Process
  child : Process → ℕ → Process

-- The loops of My_fork_line and My_fork_column, run by `p` in round `i` with `n` rounds to go: the
-- processes that return from the function. A child returns at once.
unfoldable pub fork_rounds : Process → ℕ → ℕ → List Process
fork_rounds p i zero = p ∷ []
fork_rounds p i (suc n) = child p i ∷ fork_rounds p (i + 1) n

abbrev pub my_fork_line : ℕ → Process → List Process
my_fork_line num_of_process p = fork_rounds p 0 num_of_process

abbrev pub my_fork_column : ℕ → Process → List Process
my_fork_column num_of_process p = fork_rounds p 0 num_of_process

-- Each process that returns from My_fork_line goes on in `main`.
unfoldable pub each : ℕ → List Process → List Process
each num_of_process [] = []
each num_of_process (p ∷ ps) = my_fork_column num_of_process p ++ each num_of_process ps

-- The processes that come to the end of `main`.
unfoldable pub fork_main : ℕ → List Process
fork_main num_of_process = each num_of_process (my_fork_line num_of_process parent)
