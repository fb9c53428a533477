-- ===== src/Herdsmen/Tests.antt =====
-- Runs of the herdsmen, and the theorem at them.
use sem.Prelude.{ℕ, ◌+◌, ◌≡◌, ◌≢◌, refl, arith, total, none, List, [], ◌∷◌}
use sem.Process.{State, Reach, start, schedule, schedule-Reach}
use sem.Sems.{Values, Semop, IsSemop, Outcome, next, p_oper, v_oper}
use sem.Sems.Model.{kernel_semop, kernel_semop-IsSemop}
use sem.Prelude.Int.{to_int, ◌+ℤ◌, ◌-ℤ◌}
use sem.Herdsmen.{
  Shared, Place, gone, pass_locked, block_bottom, method, begin, herdsman, sems_processing,
  num_of_semaphors, lock_up,
}
use sem.Herdsmen.Invariant.{locks}
use sem.Herdsmen.Safety.{nobody_goes}

abbrev semop : Semop
semop = kernel_semop num_of_semaphors

abbrev law : IsSemop num_of_semaphors semop
law = kernel_semop-IsSemop num_of_semaphors

abbrev values_of : Outcome → Values
values_of (next v) = v
values_of o = λ _. 0

abbrev first_set : Values
first_set = values_of (sems_processing semop (λ _. 0))

ready : sems_processing semop (λ _. 0) ≡ next first_set
unfolding sems_processing v_oper p_oper kernel_semop
ready = refl

-- The only herdsman that `main` makes goes as far as he can: he waits for LOCK_UP, which he has
-- himself.
abbrev alone : State Shared Place
alone =
    schedule (method semop) 1 (begin first_set)
      (0 ∷ 0 ∷ 0 ∷ 0 ∷ 0 ∷ 0 ∷ 0 ∷ 0 ∷ 0 ∷ 0 ∷ 0 ∷ 0 ∷ 0 ∷ [])

locked_out : (alone.place 0 ≡ pass_locked) × (method semop 0 alone.shared (alone.place 0) ≡ none)
unfolding schedule herdsman sems_processing p_oper v_oper kernel_semop to_int ◌+ℤ◌ ◌-ℤ◌
locked_out = (refl, refl)

-- Two: the second waits in the queue, and the first goes through to the bottom's block.
abbrev turns : List ℕ
turns =
    0 ∷ 0 ∷ 0 ∷ 0 ∷ 0 ∷ 1 ∷ 1 ∷ 1 ∷ 1 ∷ 0 ∷ 0 ∷ 0 ∷ 0 ∷ 0 ∷ 0 ∷ 0 ∷ 0 ∷ 0 ∷ 0 ∷ 0 ∷ 0 ∷ 0 ∷ 0 ∷ 0
    ∷ 0 ∷ 0 ∷ 0 ∷ 0 ∷ 0 ∷ 0 ∷ 0 ∷ []

abbrev two : State Shared Place
two = schedule (method semop) 2 (begin first_set) turns

two-Reach : Reach (method semop) 2 (begin first_set) two
two-Reach = schedule-Reach (method semop) (begin first_set) turns start

blocked : (two.place 0 ≡ block_bottom) × (method semop 0 two.shared (two.place 0) ≡ none)
unfolding schedule herdsman sems_processing p_oper v_oper kernel_semop to_int ◌+ℤ◌ ◌-ℤ◌
blocked = (refl, refl)

nobody_goes_example : (two.place 0 ≢ gone) × (two.shared.sems lock_up + total locks 2 two.place ≡ 1)
nobody_goes_example = nobody_goes law first_set ready 2 (omega arith) two two-Reach 0 (omega arith)
