-- ===== src/Basics/Tests.antt =====
-- my_echo.c and my_fork.c at concrete arguments.
use sem.Prelude.{ℕ, ◌+◌, ◌*◌, ◌≤◌, ◌≡◌, ◌⊎◌, refl, length, List, [], ◌∷◌}
use sem.Process.{State, Reach, start, schedule, schedule-Reach, steps}
use sem.Basics.{fork_main}
use sem.Basics.Forks.{length-fork_main}
use sem.Basics.Column.{Shared, Place, method, begin, column_parent, column_child}
use sem.Basics.Column.Order.{IsInOrder, IsIdle}
use sem.Basics.Column.Ends.{column_ends}

length-fork_main_example : length (fork_main 3) ≡ 16
length-fork_main_example = length-fork_main 3

-- The first child has printed, the second has been made.
abbrev turns : List ℕ
turns = 0 ∷ 2 ∷ 1 ∷ 1 ∷ 0 ∷ 1 ∷ 0 ∷ 0 ∷ 2 ∷ []

abbrev second_made : State Shared Place
second_made = schedule (method 2) 3 begin turns

second_made-Reach : Reach (method 2) 3 begin second_made
second_made-Reach = schedule-Reach (method 2) begin turns start

first_printed : second_made.shared.printed ≡ 1 ∷ []
unfolding schedule column_parent column_child
first_printed = refl

column_ends_example :
    (steps (method 2) second_made-Reach ≤ 5 * 2 + 1)
    × IsInOrder 2 second_made
    × (IsIdle (second_made.place 1) ⊎ IsIdle (second_made.place 2))
column_ends_example = column_ends 2 0 1 (λ e. cc) second_made-Reach
