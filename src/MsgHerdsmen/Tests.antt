-- ===== src/MsgHerdsmen/Tests.antt =====
-- Two herdsmen of msg_task/herdsmans, and the theorems at them.
use sem.Prelude.{ℕ, ◌≡◌, ◌⊎◌, arith, some, List, [], ◌∷◌, leb, if◌then◌else◌}
use sem.Process.{State, Reach, start, schedule, schedule-Reach}
use sem.Messages.{Queue, MsgCall, failure}
use sem.Messages.Model.{kernel_msgsnd, kernel_msgrcv, kernel-IsMsgQueue}
use sem.MsgHerdsmen.{Place, went_away, go_up, go_down, Local, method}
use sem.MsgHerdsmen.Course.{HasRoom, local, following, message, put}
use sem.MsgHerdsmen.Passage.{begin, never_waits}
use sem.MsgHerdsmen.Meeting.{both_ways}

-- A queue with room for 8 messages of at most 8192 bytes, the largest size by default.
abbrev msgsnd : ℕ → MsgCall
msgsnd size q t = if leb size 8192 then kernel_msgsnd 8 q t else failure

abbrev msgrcv : ℕ → MsgCall
msgrcv size = kernel_msgrcv

law : HasRoom 8 8192 msgsnd
law = record {
  sends = λ size t q small some_type roomy.
      ground (arith, (kernel-IsMsgQueue 8).sends q t some_type roomy);
}

abbrev after : List ℕ → State Queue Local
after turns = schedule (method msgsnd msgrcv 2) 2 begin turns

after-Reach : (turns : List ℕ) → Reach (method msgsnd msgrcv 2) 2 begin (after turns)
after-Reach turns = schedule-Reach (method msgsnd msgrcv 2) begin turns start

never_waits_example :
    let s : State Queue Local = after (0 ∷ 0 ∷ 1 ∷ 0 ∷ 0 ∷ 0 ∷ []) in
    (s.place 1 ≡ local went_away)
    ⊎ ((p : Place) × (s.place 1 ≡ local p)
        × (method msgsnd msgrcv 2 1 s.shared (s.place 1)
            ≡ some (put s.shared (message 2 p), local (following p))))
never_waits_example =
    never_waits law msgrcv 2 (omega arith) (omega arith) (after (0 ∷ 0 ∷ 1 ∷ 0 ∷ 0 ∷ 0 ∷ []))
      (after-Reach (0 ∷ 0 ∷ 1 ∷ 0 ∷ 0 ∷ 0 ∷ [])) 1 (omega arith)

both_ways_example :
    (s : State Queue Local) × Reach (method msgsnd msgrcv 2) 2 begin s
    × ((s.place 0).place ≡ go_up)
    × ((s.place 1).place ≡ go_down)
both_ways_example =
    both_ways law msgrcv 2 (omega arith) (omega arith) 0 1 (omega arith) (omega arith)
      (λ e. omega arith)
