-- ===== src/Runners.antt =====
-- 6sem/runners_proc.c: a judge and his runners, who meet by messages. Process 0 is the judge, process
-- `i` from 1 on the runner of that number.
pub mod Invariant
pub mod Methods
pub mod Race
pub mod Order
pub mod Ends
pub mod Progress
mod Tests
use sem.Prelude.{ℕ, zero, suc, ◌+◌, Option, none, some, List, [], ltb, ◌==◌, if◌then◌else◌}
use sem.Process.{State}
use sem.Messages.{Queue, MsgCall, MsgResult, success, sleeps, failure}

-- RUNNR_CAME and RUN_IS_OVR
abbrev pub runnr_came : ℕ → ℕ
runnr_came num_of_runnrs = num_of_runnrs + 2

abbrev pub run_is_ovr : ℕ → ℕ
run_is_ovr num_of_runnrs = num_of_runnrs + 1

-- What a process does next. The judge keeps the `i` of his loop.
pub data Place : Type 0 where
  wait_came : ℕ → Place  -- judge: the first loop, msgrcv(RUNNR_CAME)
  send_start : ℕ → Place  -- judge: the second loop, msgsnd(i + 1)
  wait_finish : ℕ → Place  -- judge: msgrcv(i + 1)
  send_over : ℕ → Place  -- judge: the third loop, msgsnd(RUN_IS_OVR)
  judged : Place  -- judge: the end
  come : Place  -- runner: msgsnd(RUNNR_CAME)
  wait_start : Place  -- runner: msgrcv(cur_runner)
  run_up : Place  -- runner: he runs, and msgsnd(cur_runner)
  wait_over : Place  -- runner: msgrcv(RUN_IS_OVR)
  went_away : Place  -- runner: the end
  exited : Place  -- `exit(0)` after a message call that failed

abbrev pub Turn : Type 0
Turn = Option (Queue × Place)

abbrev pub resume : Queue → MsgResult → Place → Turn
resume q (success r) p = some (r, p)
resume q sleeps p = none
resume q failure p = some (q, exited)

module _ (msgsnd msgrcv : MsgCall) (num_of_runnrs : ℕ) where
  unfoldable pub judge : Queue → Place → Turn
  judge q (wait_came i) =
      if ltb i num_of_runnrs
      then resume q (msgrcv q (runnr_came num_of_runnrs)) (wait_came (i + 1))
      else some (q, send_start 0)
  judge q (send_start i) =
      if ltb i num_of_runnrs
      then resume q (msgsnd q (i + 1)) (wait_finish i)
      else some (q, send_over 0)
  judge q (wait_finish i) = resume q (msgrcv q (i + 1)) (send_start (i + 1))
  judge q (send_over i) =
      if ltb i num_of_runnrs
      then resume q (msgsnd q (run_is_ovr num_of_runnrs)) (send_over (i + 1))
      else some (q, judged)
  judge q p = none

  unfoldable pub runner : ℕ → Queue → Place → Turn
  runner cur_runner q come = resume q (msgsnd q (runnr_came num_of_runnrs)) wait_start
  runner cur_runner q wait_start = resume q (msgrcv q cur_runner) run_up
  runner cur_runner q run_up = resume q (msgsnd q cur_runner) wait_over
  runner cur_runner q wait_over = resume q (msgrcv q (run_is_ovr num_of_runnrs)) went_away
  runner cur_runner q p = none

  -- The children of `main`.
  abbrev pub method : ℕ → Queue → Place → Turn
  method i q p = if i == 0 then judge q p else runner i q p

-- `main`: the queue is new.
abbrev pub begin : State Queue Place
begin = record { shared = []; place = λ i. if i == 0 then wait_came 0 else come }
