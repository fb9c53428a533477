-- ===== src/Basics/Column.antt =====
-- My_fork_column of 4sem/my_fork.c as the processes run it at the same time: process 0 goes round the
-- loop, process `j` is the child that it makes in round `j - 1`. Every `fork` succeeds.
pub mod Order
pub mod Ends
use sem.Prelude.{
  ℕ, zero, suc, ◌+◌, Option, none, some, List, [], ◌∷◌, ◌++◌, ltb, leb, ◌==◌, if◌then◌else◌,
}
use sem.Process.{State}

-- How many children have been made, have ended and have been waited for, and the children that have
-- printed their line.
pub record Shared : Type 0 where
  pub born : ℕ
  pub ended : ℕ
  pub reaped : ℕ
  pub printed : List ℕ

pub data Place : Type 0 where
  round : ℕ → Place  -- the head of the loop
  waiting : ℕ → Place  -- wait(&status)
  back : Place  -- the end of My_fork_column
  unborn : Place
  begun : Place  -- child: printf
  finished : Place  -- child: back in main
  gone : Place

abbrev pub Turn : Type 0
Turn = Option (Shared × Place)

unfoldable pub column_parent : ℕ → Shared → Place → Turn
column_parent num_of_process s (round i) =
    if ltb i num_of_process
    then some (record s { born = s.born + 1 }, waiting i)
    else some (s, back)
column_parent num_of_process s (waiting i) =
    if ltb s.reaped s.ended then some (record s { reaped = s.reaped + 1 }, round (i + 1)) else none
column_parent num_of_process s p = none

unfoldable pub column_child : ℕ → Shared → Place → Turn
column_child j s unborn = if leb j s.born then some (s, begun) else none
column_child j s begun = some (record s { printed = s.printed ++ (j ∷ []) }, finished)
column_child j s finished = some (record s { ended = s.ended + 1 }, gone)
column_child j s p = none

abbrev pub method : ℕ → ℕ → Shared → Place → Turn
method num_of_process zero s p = column_parent num_of_process s p
method num_of_process (suc j) s p = column_child (suc j) s p

abbrev pub begin : State Shared Place
begin = record {
  shared = record { born = 0; ended = 0; reaped = 0; printed = [] };
  place = λ i. if i == 0 then round 0 else unborn;
}
