-- ===== src/Runners/Tests.antt =====
-- Runs of the judge with two runners, and the theorems at them.
use sem.Prelude.{ℕ, ◌+◌, ◌*◌, ◌<◌, ◌≤◌, ◌≡◌, refl, arith, total, some, List, [], ◌∷◌, ◌++◌}
use sem.Process.{State, Reach, start, steps, schedule, schedule-Reach}
use sem.Messages.{Queue, MsgCall, IsMsgQueue, take_first}
use sem.Messages.Model.{kernel_msgsnd, kernel_msgrcv, kernel-IsMsgQueue}
use sem.Runners.{Place, wait_finish, judged, went_away, method, begin, judge, runner, run_is_ovr}
use sem.Runners.Invariant.{to_come}
use sem.Runners.Order.{one_runs}
use sem.Runners.Ends.{runners_end}
use sem.Runners.Progress.{judge_unfinished_progress}
use sem.Runners.Race.{at_start, replicate, nobody_runs}

abbrev msgsnd : MsgCall
msgsnd = kernel_msgsnd 100

abbrev law : IsMsgQueue 100 msgsnd kernel_msgrcv
law = kernel-IsMsgQueue 100

abbrev after : List ℕ → State Queue Place
after turns = schedule (method msgsnd kernel_msgrcv 2) 3 begin turns

after-Reach : (turns : List ℕ) → Reach (method msgsnd kernel_msgrcv 2) 3 begin (after turns)
after-Reach turns = schedule-Reach (method msgsnd kernel_msgrcv 2) begin turns start

-- Both runners come, and the first runs.
abbrev turns : List ℕ
turns = 1 ∷ 2 ∷ 0 ∷ 0 ∷ 0 ∷ 0 ∷ 1 ∷ []

one_runs_example :
    (total to_come 3 (after turns).place ≡ 0)
    × ((after turns).place 0 ≡ wait_finish 0)
    × (◌≡◌ {A = ℕ} 0 0)
unfolding schedule judge runner kernel_msgsnd kernel_msgrcv take_first
one_runs_example =
    one_runs law 2 (after turns) (after-Reach turns) 0 0 (omega arith) (omega arith) refl refl

runners_end_example : steps (method msgsnd kernel_msgrcv 2) (after-Reach turns) ≤ 8 * 2 + 3
runners_end_example = runners_end law 2 (after turns) (after-Reach turns)

judge_unfinished_progress_example :
    (i : ℕ) × (i < 3)
    × ((t : Queue × Place) × (method msgsnd kernel_msgrcv 2 i
            (after turns).shared
            ((after turns).place i)
          ≡ some t))
unfolding schedule judge runner kernel_msgsnd kernel_msgrcv take_first
judge_unfinished_progress_example =
    judge_unfinished_progress law 2 (after turns) (after-Reach turns) (omega arith) (λ e. cc)

-- The competition as it is meant: all come, run one after the other, and go away.
all_run :
    let s : State Queue Place =
      after (turns ++ (1 ∷ 0 ∷ 0 ∷ 2 ∷ 2 ∷ 0 ∷ 0 ∷ 0 ∷ 0 ∷ 0 ∷ 1 ∷ 2 ∷ [])) in
    (s.place 0 ≡ judged) × (s.place 1 ≡ went_away) × (s.place 2 ≡ went_away) × (s.shared ≡ [])
unfolding schedule judge runner kernel_msgsnd kernel_msgrcv take_first
all_run = (refl, refl, refl, refl)

nobody_runs_example :
    (s : State Queue Place) × Reach (method msgsnd kernel_msgrcv 5) 6 begin s
    × (s.place 0 ≡ judged)
    × (total at_start 6 s.place ≡ 5)
    × (s.shared ≡ replicate 5 (run_is_ovr 5))
nobody_runs_example = nobody_runs law 5 (omega arith)
