-- ===== src/Boat/Tests.antt =====
-- Runs of the captain with two passengers, and the theorems at them.
use sem.Prelude.{
  ℕ, suc, ltb, if◌then◌else◌, ◌<◌, ◌+◌, ◌≡◌, refl, arith, total, none, List, [], ◌∷◌, false,
}
use sem.Process.{State, Reach, start, schedule, schedule-Reach}
use sem.Sems.{Values, Semop, IsSemop, Outcome, next, v_oper, p_oper, z_oper}
use sem.Sems.Model.{kernel_semop, kernel_semop-IsSemop}
use sem.Boat.{
  Place, went_away, wait_full, wait_empty, seated, book, Arguments, method, begin, sems_processing,
  num_of_semaphors, num_on_boat, num_on_stair, passengers, captain,
}
use sem.Boat.Invariant.{stair, aboard}
use sem.Boat.Methods.{IsSmall}
use sem.Boat.Safety.{places_exact}
use sem.Boat.Stranded.{first_trip_stuck}

abbrev semop : Semop
semop = kernel_semop num_of_semaphors

abbrev law : IsSemop num_of_semaphors semop
law = kernel_semop-IsSemop num_of_semaphors

abbrev args : ℕ → Arguments
args trips = record { num_of_pass = 2; num_of_trips = trips; cap_of_boat = 1; cap_of_stair = 1 }

small : (trips : ℕ) → IsSmall (args trips)
small trips = record {
  some_pass = omega arith;
  low_pass = omega arith;
  some_boat = omega arith;
  some_stair = omega arith;
  low_stair = omega arith;
}

abbrev values_of : Outcome → Values
values_of (next v) = v
values_of o = λ _. 0

abbrev first_set : Values
first_set = values_of (sems_processing semop (λ _. 0) 1 2 1)

ready : sems_processing semop (λ _. 0) 1 2 1 ≡ next first_set
unfolding sems_processing v_oper kernel_semop
ready = refl

-- Passenger 1 boards by the stair, and the captain removes it.
abbrev turns : List ℕ
turns = 0 ∷ 1 ∷ 1 ∷ 0 ∷ 1 ∷ 1 ∷ 1 ∷ 1 ∷ 1 ∷ 0 ∷ 0 ∷ 0 ∷ 0 ∷ []

abbrev removed : State Values Place
removed = schedule (method semop (args 2)) 3 (begin first_set) turns

removed-Reach : Reach (method semop (args 2)) 3 (begin first_set) removed
removed-Reach = schedule-Reach (method semop (args 2)) (begin first_set) turns start

places_exact_example :
    (removed.shared num_on_stair + total (stair 1) 3 removed.place ≡ 1)
    × (removed.shared num_on_boat + total aboard 3 removed.place ≡ 1)
places_exact_example = places_exact law (args 2) (small 2) first_set ready removed removed-Reach

-- With one trip the captain says at once that it is the last, no passenger boards any more, and the
-- captain waits for them for ever.
abbrev last_values : State Values Place
last_values = schedule (method semop (args 1)) 3 (begin first_set) (0 ∷ 0 ∷ 0 ∷ 1 ∷ 1 ∷ 2 ∷ 2 ∷ [])

stranded_captain :
    (last_values.place 1 ≡ went_away false)
    × (last_values.place 2 ≡ went_away false)
    × (last_values.place 0 ≡ wait_full 0)
    × (method semop (args 1) 0 last_values.shared (wait_full 0) ≡ none)
unfolding schedule captain passengers sems_processing p_oper v_oper z_oper kernel_semop
stranded_captain = (refl, refl, refl, refl)

first_trip_stuck_example :
    (s : State Values Place) × Reach (method semop (args 2)) 3 (begin first_set) s
    × (s.place 0 ≡ wait_empty 0)
    × ((i : ℕ) → i < 2 → s.place (suc i) ≡ (if ltb i 1 then seated else book false))
    × ((i : ℕ) → i < 3 → method semop (args 2) i s.shared (s.place i) ≡ none)
first_trip_stuck_example = first_trip_stuck law (args 2) (small 2) first_set ready (omega arith)
