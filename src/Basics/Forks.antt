-- ===== src/Basics/Forks.antt =====
-- How many processes my_fork.c makes.
use sem.Prelude.{ℕ, zero, suc, ◌+◌, ◌*◌, ◌≡◌, refl, arith, List, [], ◌∷◌, length, length-append}
use sem.Basics.{Process, fork_rounds, each, fork_main, parent}

length-fork_rounds : (p : Process) (i n : ℕ) → length (fork_rounds p i n) ≡ n + 1
unfolding fork_rounds
length-fork_rounds p i zero = omega arith
length-fork_rounds p i (suc n) = omega (arith, length-fork_rounds p (i + 1) n)

length-each : (n : ℕ) (ps : List Process) → length (each n ps) ≡ length ps * (n + 1)
unfolding each
length-each n [] = omega arith
length-each n (p ∷ ps) = omega (
  arith,
  length-append (fork_rounds p 0 n) (each n ps),
  length-fork_rounds p 0 n,
  length-each n ps,
)

-- A child that returns from My_fork_line goes on with My_fork_column: for `n` processes in a line and
-- `n` in a column, (n + 1)² processes come to the end of `main`.
pub length-fork_main : (n : ℕ) → length (fork_main n) ≡ (n + 1) * (n + 1)
unfolding fork_main
length-fork_main n = rw (length-each n (fork_rounds parent 0 n), length-fork_rounds parent 0 n) refl
