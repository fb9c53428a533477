-- ===== src/Threads/Tests.antt =====
-- Runs of `My_threads`, and the theorems at them.
use sem.Prelude.{
  ℕ, zero, suc, ◌+◌, ◌*◌, ◌/◌, ◌<◌, ◌≤◌, ◌≡◌, refl, arith, Bool, true, false, Option, none, some,
  List, [], ◌∷◌,
}
use sem.Process.{State, Reach, start, steps, schedule, schedule-Reach}
use sem.Threads.{
  Globals, IsMutex, Place, over, Algo, first, second, fourth, method, my_threads, first_algo,
  second_algo, fourth_algo, sec_param, value_per_threads,
}
use sem.Threads.Counts.{threads_end, one_inside, thread_unfinished_progress}
use sem.Threads.Main.{
  threads_main, threads, divides_by_zero, outside, overflows, threads_main_counts,
}
use sem.Threads.Race.{Ends, additions_lost}
use sem.Prelude.Int.{pos, negsuc, ◌+ℤ◌, to_int}

abbrev lock : Bool → Option Bool
lock true = none
lock false = some true

abbrev unlock : Bool → Bool
unlock b = false

abbrev law : IsMutex lock unlock
law = record { takes = refl; waits = refl; frees = refl }

-- The first algorithm one thread after the other, and with an addition that is lost.
abbrev after : Algo → List ℕ → State Globals Place
after algo turns = schedule (method lock unlock algo) 2 (my_threads algo 3 2) turns

in_turn : (after first (0 ∷ 0 ∷ 0 ∷ 0 ∷ 0 ∷ 0 ∷ 0 ∷ 1 ∷ 1 ∷ 1 ∷ 1 ∷ [])).shared.counter ≡ 3
unfolding schedule my_threads first_algo sec_param value_per_threads to_int ◌+ℤ◌
in_turn = refl

mixed : (after first (1 ∷ 1 ∷ 0 ∷ 0 ∷ 0 ∷ 0 ∷ 0 ∷ 0 ∷ 0 ∷ 1 ∷ 1 ∷ [])).shared.counter ≡ 1
unfolding schedule my_threads first_algo sec_param value_per_threads to_int ◌+ℤ◌
mixed = refl

additions_lost_example : Ends lock unlock (my_threads first 100 2) (100 / 2)
additions_lost_example = additions_lost lock unlock 100 (omega arith) (omega arith)

-- The second thread is behind the mutex, and the first waits for it.
abbrev midway : State Globals Place
midway = after second (1 ∷ 1 ∷ 1 ∷ 0 ∷ 0 ∷ [])

midway-Reach : Reach (method lock unlock second) 2 (my_threads second 3 2) midway
midway-Reach =
    schedule-Reach (method lock unlock second) (my_threads second 3 2) (1 ∷ 1 ∷ 1 ∷ 0 ∷ 0 ∷ [])
      start

one_inside_example : ◌≡◌ {A = ℕ} 1 1
unfolding schedule my_threads second_algo sec_param value_per_threads to_int ◌+ℤ◌
one_inside_example =
    one_inside law 1 3 (omega arith) second midway midway-Reach (λ e. cc) 1 1 (omega arith)
      (omega arith) refl refl

thread_unfinished_progress_example :
    (j : ℕ) × (j < 2)
    × ((t : Globals × Place) × (method lock unlock second j midway.shared (midway.place j)
          ≡ some t))
unfolding schedule my_threads second_algo sec_param value_per_threads to_int ◌+ℤ◌
thread_unfinished_progress_example =
    thread_unfinished_progress law 1 3 (omega arith) second midway midway-Reach 0 (omega arith)
      (λ e. cc)

threads_end_example : steps (method lock unlock second) midway-Reach ≤ 7 * 3 + 6 * 2
threads_end_example = threads_end law 1 3 (omega arith) second midway midway-Reach

abbrev turns : List ℕ
turns = 0 ∷ 0 ∷ 1 ∷ 0 ∷ 1 ∷ 0 ∷ 0 ∷ 0 ∷ 0 ∷ 0 ∷ 1 ∷ 1 ∷ 1 ∷ 1 ∷ 1 ∷ 1 ∷ []

abbrev ended : State Globals Place
ended = after fourth turns

ended-Reach : Reach (method lock unlock fourth) 2 (my_threads fourth 3 2) ended
ended-Reach = schedule-Reach (method lock unlock fourth) (my_threads fourth 3 2) turns start

ended_over : (i : ℕ) → i < 2 → ended.place i ≡ over
unfolding schedule my_threads fourth_algo sec_param value_per_threads to_int ◌+ℤ◌
ended_over zero lt = refl
ended_over (suc zero) lt = refl
ended_over (suc (suc i)) lt = absurd (omega arith)

begun : threads_main 100 (pos 2 ∷ pos 4 ∷ pos 3 ∷ []) ≡ threads fourth 2 3
unfolding threads_main
begun = refl

-- With no threads `main` divides by zero, and with a fifth algorithm it reads outside of its table; -1
-- threads are more than the stack holds.
not_begun :
    (threads_main 100 (pos 0 ∷ pos 1 ∷ pos 3 ∷ []) ≡ divides_by_zero)
    × (threads_main 100 (pos 2 ∷ pos 5 ∷ pos 3 ∷ []) ≡ outside)
    × (threads_main 100 (negsuc 0 ∷ pos 2 ∷ pos 3 ∷ []) ≡ overflows)
unfolding threads_main
not_begun = (refl, refl, refl)

threads_main_counts_example : ended.shared.counter ≡ 3
unfolding my_threads
threads_main_counts_example =
    threads_main_counts law refl 100 (pos 2 ∷ pos 4 ∷ pos 3 ∷ []) fourth 2 3 begun (λ e. cc)
      (omega arith) ended ended-Reach ended_over
