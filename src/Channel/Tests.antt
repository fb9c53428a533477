-- ===== src/Channel/Tests.antt =====
-- Runs of the server with two clients, and the theorems at them.
use sem.Prelude.{
  zero, suc, ℕ, ◌<◌, ◌≡◌, ◌≢◌, refl, arith, true, false, some, none, List, [], ◌∷◌, ◌++◌, ◌==◌,
  if◌then◌else◌,
}
use sem.Process.{State, Reach, start, schedule, schedule-Reach}
use sem.Sems.{Semop, IsSemop, p_oper, v_oper, z_oper}
use sem.Sems.Model.{kernel_semop, kernel_semop-IsSemop}
use sem.Channel.{
  Arg, Shared, Place, wait_memory, done, method, begin, server, client, num_of_semaphors, c_string,
}
use sem.Channel.Invariant.{owed, text, sent_by, sendable, unsent}
use sem.Channel.Delivery.{delivered, one_owner, all_delivered}

abbrev semop : Semop
semop = kernel_semop num_of_semaphors

abbrev law : IsSemop num_of_semaphors semop
law = kernel_semop-IsSemop num_of_semaphors

-- Client 1 has a file of two lines, the second with a '\0' in it, which cannot be closed, and another;
-- client 2 has none that opens.
abbrev files : ℕ → List Arg
files i =
    if i == 1
    then some ((b'a' ∷ 10 ∷ []) ∷ (b'b' ∷ 0 ∷ b'c' ∷ []) ∷ [], false) ∷ some ([], true) ∷ []
    else none ∷ []

abbrev turns : List ℕ
turns = 0 ∷ 1 ∷ 1 ∷ 1 ∷ 1 ∷ 0 ∷ 1 ∷ 0 ∷ 0 ∷ []

-- Client 1 has stored its first line, and the server has printed it.
abbrev midway : State Shared Place
midway = schedule (method semop) 3 (begin files) turns

midway-Reach : Reach (method semop) 3 (begin files) midway
midway-Reach = schedule-Reach (method semop) (begin files) turns start

midway_output : midway.shared.output ≡ b'a' ∷ 10 ∷ []
unfolding schedule server client p_oper v_oper z_oper kernel_semop c_string
midway_output = refl

delivered_example :
    (midway.shared.output
        ++ (if owed 3 files midway == 0 then [] else c_string midway.shared.main_buffer)
      ≡ text midway.shared.sent)
    × (sent_by 1 midway.shared.sent ++ unsent (midway.place 1) ≡ sendable (files 1))
delivered_example = delivered law 2 files midway midway-Reach 1 (omega arith) (omega arith)

-- Client 1 has the buffer.
abbrev storing : State Shared Place
storing = schedule (method semop) 3 (begin files) (0 ∷ 1 ∷ 1 ∷ [])

storing-Reach : Reach (method semop) 3 (begin files) storing
storing-Reach = schedule-Reach (method semop) (begin files) (0 ∷ 1 ∷ 1 ∷ []) start

one_owner_example : ◌≡◌ {A = ℕ} 1 1
unfolding schedule server client p_oper v_oper z_oper kernel_semop
one_owner_example =
    one_owner law 2 files storing storing-Reach 1 1 (omega arith) (omega arith) refl refl

abbrev all_turns : List ℕ
all_turns = turns ++ (1 ∷ 1 ∷ 1 ∷ 0 ∷ 0 ∷ 0 ∷ 0 ∷ 1 ∷ 1 ∷ 0 ∷ 1 ∷ 1 ∷ 1 ∷ 1 ∷ 1 ∷ 1 ∷ 2 ∷ [])

abbrev ended : State Shared Place
ended = schedule (method semop) 3 (begin files) all_turns

ended-Reach : Reach (method semop) 3 (begin files) ended
ended-Reach = schedule-Reach (method semop) (begin files) all_turns start

ended_places :
    (ended.place 0 ≡ wait_memory)
    × (ended.place 1 ≡ done)
    × (ended.place 2 ≡ done)
    × (ended.shared.output ≡ b'a' ∷ 10 ∷ b'b' ∷ [])
unfolding schedule server client p_oper v_oper z_oper kernel_semop c_string
ended_places = (refl, refl, refl, refl)

halted : (i : ℕ) (t : Shared × Place) → i < 3 → method semop i ended.shared (ended.place i) ≢ some t
unfolding schedule server client p_oper v_oper z_oper kernel_semop
halted zero t lt e = cc
halted (suc zero) t lt e = cc
halted (suc (suc zero)) t lt e = cc
halted (suc (suc (suc i))) t lt e = absurd (omega arith)

all_delivered_example :
    (ended.shared.output ≡ text ended.shared.sent)
    × (sent_by 1 ended.shared.sent ≡ sendable (files 1))
all_delivered_example =
    all_delivered law 2 files ended ended-Reach halted 1 (omega arith) (omega arith)
