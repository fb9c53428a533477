-- ===== src/Bridge/Tests.antt =====
-- Runs of the cars and ships of bridge.c, and the theorems at concrete runs.
use sem.Prelude.{
  ℕ, ◌+◌, ◌/◌, ◌^◌, ◌<◌, ◌≡◌, ◌≢◌, ◌↔◌, refl, arith, true, ltb, total, some, none, [], ◌∷◌, update,
}
use sem.Prelude.Int.{pos, negsuc, pos_part, ◌+ℤ◌, to_int}
use sem.Process.{State, Reach, start, schedule, schedule-Reach}
use sem.Sems.{Semop, IsSemop, p_oper, v_oper}
use sem.Sems.Model.{kernel_semop, kernel_semop-IsSemop}
use sem.Bridge.{
  Shared, Place, queue, cross, gone, exited, num_of_semaphors, method, init, children, close_cond,
  car_method, ship_method,
}
use sem.Bridge.Invariant.{car_waiting, ship_waiting}
use sem.Bridge.Safety.{fresh, permit_cond, one_on_bridge, one_in_shared, waiting_exact, never_exits}
use sem.Bridge.Progress.{car_unfinished_progress}
use sem.Bridge.Main.{fork_loop, num_of_children, cars_in, ships_in, fork_loop_counts}
use sem.Bridge.Leftovers.{
  semaphores, memory, returns, Ended, Calls, forks_all, bridge_main, bridge_main_clean,
}

abbrev semop : Semop
semop = kernel_semop num_of_semaphors

abbrev law : IsSemop num_of_semaphors semop
law = kernel_semop-IsSemop num_of_semaphors

-- The shared state after `Init`.
abbrev z : Shared
z = record {
  sems = update (update (update fresh 3 1) 2 1) 0 1;
  shm = record { num_of_waiting_cars = 0; num_of_waiting_ships = 0; bridge_cond = 0 };
}

started : init semop fresh ≡ some z
unfolding init v_oper kernel_semop
started = refl

-- Process 0 is a car on the bridge, process 1 a ship in its queue.
abbrev crossing : State Shared Place
crossing = schedule (method semop) 2 (children z) (0 ∷ 0 ∷ 0 ∷ 0 ∷ 1 ∷ 1 ∷ 1 ∷ 1 ∷ 0 ∷ 0 ∷ [])

crossing-Reach : Reach (method semop) 2 (children z) crossing
crossing-Reach =
    schedule-Reach (method semop) (children z) (0 ∷ 0 ∷ 0 ∷ 0 ∷ 1 ∷ 1 ∷ 1 ∷ 1 ∷ 0 ∷ 0 ∷ []) start

crossing_places : (crossing.place 0 ≡ cross) × (crossing.place 1 ≡ queue)
unfolding schedule car_method ship_method p_oper v_oper kernel_semop
crossing_places = (refl, refl)

few : 2 < 2 ^ 32
few = omega arith

permit_cond_example : crossing.shared.shm.bridge_cond ≡ close_cond
unfolding schedule car_method ship_method p_oper v_oper kernel_semop
permit_cond_example = permit_cond law 2 z few started crossing crossing-Reach 0 (omega arith) refl

one_on_bridge_example : ◌≡◌ {A = ℕ} 0 0
unfolding schedule car_method ship_method p_oper v_oper kernel_semop
one_on_bridge_example =
    one_on_bridge law 2 z few started crossing crossing-Reach 0 0 (omega arith) (omega arith) refl
      refl

-- Process 1 is about to count itself.
abbrev counting : State Shared Place
counting = schedule (method semop) 2 (children z) (0 ∷ 0 ∷ 0 ∷ 0 ∷ 1 ∷ [])

counting-Reach : Reach (method semop) 2 (children z) counting
counting-Reach = schedule-Reach (method semop) (children z) (0 ∷ 0 ∷ 0 ∷ 0 ∷ 1 ∷ []) start

one_in_shared_example : ◌≡◌ {A = ℕ} 1 1
unfolding schedule car_method ship_method p_oper v_oper kernel_semop
one_in_shared_example =
    one_in_shared law 2 z few started counting counting-Reach 1 1 (omega arith) (omega arith) refl
      refl

waiting_exact_example :
    (crossing.shared.shm.num_of_waiting_cars ≡ total car_waiting 2 crossing.place)
    × (crossing.shared.shm.num_of_waiting_ships ≡ total ship_waiting 2 crossing.place)
waiting_exact_example = waiting_exact law 2 z few started crossing crossing-Reach

never_exits_example : crossing.place 0 ≢ exited
never_exits_example = never_exits law 2 z few started crossing crossing-Reach 0 (omega arith)

car_unfinished_progress_example :
    (i : ℕ) × (i < 2)
    × ((t : Shared × Place) × (method semop i crossing.shared (crossing.place i) ≡ some t))
unfolding schedule car_method ship_method p_oper v_oper kernel_semop
car_unfinished_progress_example =
    car_unfinished_progress law 2 z few started crossing crossing-Reach 0 (omega arith) refl
      (λ e. cc)

fork_loop_counts_example :
    (cars_in (fork_loop (pos 4 ∷ pos 1 ∷ []))
      ≡ (pos_part (num_of_children (pos 4 ∷ pos 1 ∷ [])) + 1) / 2)
    × (ships_in (fork_loop (pos 4 ∷ pos 1 ∷ []))
        ≡ pos_part (num_of_children (pos 4 ∷ pos 1 ∷ [])) / 2)
fork_loop_counts_example = fork_loop_counts (pos 4 ∷ pos 1 ∷ [])

-- A sum that is too large for an `int` makes no child.
too_many : num_of_children (pos 2147483647 ∷ pos 1 ∷ []) ≡ negsuc 2147483647
unfolding to_int ◌+ℤ◌
too_many = refl

-- Two children are made, and the third fork fails.
abbrev third_fails : Calls
third_fails = record {
  semget = none;
  shmget = none;
  calloc_ok = true;
  shmat = none;
  fork_ok = λ i. ltb i 2;
  fork_errno = 11;
  children_end = true;
  semctl = none;
  shmctl = none;
}

abbrev stopped : Ended
stopped = record { how = returns (pos 11); left = memory ∷ semaphores ∷ [] }

all_removed :
    bridge_main semop (pos 1 ∷ pos 1 ∷ []) third_fails
    ≡ some (record { how = returns (pos 0); left = [] })
unfolding bridge_main forks_all init v_oper kernel_semop to_int ◌+ℤ◌
all_removed = refl

bridge_main_clean_example : (stopped.left ≡ []) ↔ (stopped.how ≡ returns (pos 0))
unfolding bridge_main forks_all init v_oper kernel_semop
bridge_main_clean_example =
    bridge_main_clean semop [] third_fails stopped refl tt tt (omega arith) tt tt refl

-- The car crosses before the ship has come, and keeps the permission for cars; the ship then waits
-- for it in vain.
abbrev stranded : State Shared Place
stranded =
    schedule (method semop) 2 (children z)
      (0 ∷ 0 ∷ 0 ∷ 0 ∷ 0 ∷ 0 ∷ 0 ∷ 0 ∷ 0 ∷ 0 ∷ 0 ∷ 0 ∷ 0 ∷ 1 ∷ 1 ∷ 1 ∷ 1 ∷ 1 ∷ 1 ∷ [])

stranded_places :
    (stranded.place 0 ≡ gone)
    × (stranded.place 1 ≡ queue)
    × (method semop 0 stranded.shared gone ≡ none)
    × (method semop 1 stranded.shared queue ≡ none)
unfolding schedule car_method ship_method p_oper v_oper kernel_semop
stranded_places = (refl, refl, refl, refl)
