-- ===== src/Threads/Main.antt =====
-- `main` of my_pthreads.c: the numbers that it is run with, as `atoi` reads them.
use sem.Prelude.{
  ℕ, zero, suc, Bool, false, ◌-◌, ◌^◌, ◌≤◌, ◌<◌, ◌≡◌, ◌≢◌, arith, Option, none, some, List, [], ◌∷◌,
  ◌==◌, if◌then◌else◌, ltb, Bool-cases, inl, inr,
}
use sem.Prelude.Int.{ℤ, pos, negsuc}
use sem.Process.{State, Reach}
use sem.Threads.{
  Algo, first, second, third, fourth, Globals, Place, IsMutex, over, method, my_threads,
}
use sem.Threads.Counts.{counter_counts}

-- How `main` goes on: it returns ERROR, has no room on the stack for `thr_buf`, reads outside of
-- `functions`, divides by zero, or starts threads with these numbers.
pub data Start : Type 0 where
  refused : Start
  overflows : Start
  outside : Start
  divides_by_zero : Start
  threads : Algo → ℕ → ℕ → Start

-- An `int` as an `unsigned long long`.
abbrev pub to_unsigned : ℤ → ℕ
to_unsigned (pos n) = n
to_unsigned (negsuc n) = 2 ^ 64 - 1 - n

-- functions[num_of_algo - 1]
abbrev pub function_at : ℕ → Option Algo
function_at num =
    if num == 1
    then some first
    else if num == 2
    then some second
    else if num == 3
    then some third
    else if num == 4
    then some fourth
    else none

abbrev pub start_algo : Option Algo → ℕ → ℕ → Start
start_algo none num_of_threads expctd_val = outside
start_algo (some algo) num_of_threads expctd_val =
    if num_of_threads == 0 then divides_by_zero else threads algo num_of_threads expctd_val

-- `room` is how many `pthread_t` the stack holds.
unfoldable pub threads_main : ℕ → List ℤ → Start
threads_main room (num_of_threads ∷ num_of_algo ∷ expctd_val ∷ more) =
    if ltb room (to_unsigned num_of_threads)
    then overflows
    else start_algo (function_at (to_unsigned num_of_algo)) (to_unsigned num_of_threads)
        (to_unsigned expctd_val)
threads_main room args = refused

-- The threads as `main` starts them: pthr_mut, which is not locked, has been unlocked before.
abbrev pub started_threads : (Bool → Bool) → Algo → ℕ → ℕ → State Globals Place
started_threads unlock algo expctd_val num_of_threads =
    let s = my_threads algo expctd_val num_of_threads in
    record s { shared = record (s.shared) { pthr_mut = unlock s.shared.pthr_mut } }

start_algo-pos :
    (found : Option Algo) (t e : ℕ) (algo : Algo) (t' e' : ℕ)
    → start_algo found t e ≡ threads algo t' e'
    → 1 ≤ t'
start_algo-pos none t e algo t' e' is = cc
start_algo-pos (some a) t e algo t' e' is = ground arith

overflows_apart : (algo : Algo) (t e : ℕ) → overflows ≢ threads algo t e
overflows_apart algo t e is = cc

-- Where `main` starts threads, there is at least one.
threads_main-pos :
    (room : ℕ) (args : List ℤ) (algo : Algo) (t e : ℕ)
    → threads_main room args ≡ threads algo t e
    → 1 ≤ t
unfolding threads_main
threads_main-pos room [] algo t e is = cc
threads_main-pos room (a ∷ []) algo t e is = cc
threads_main-pos room (a ∷ b ∷ []) algo t e is = cc
threads_main-pos room (a ∷ b ∷ c ∷ more) algo t e is =
    elim (Bool-cases (ltb room (to_unsigned a))) [
      | inl large ↦ absurd (overflows_apart algo t e (rw large at is))
      | inr fits ↦
          start_algo-pos (function_at (to_unsigned b)) (to_unsigned a) (to_unsigned c) algo t e
            (rw fits at is)
    ]

-- Whatever the arguments are with which `main` starts threads: with an algorithm but the first, and an
-- expected value below 2^31, the counter is at that value when all threads have returned, whatever
-- the order of their steps was. `main` unlocks the mutex, which is not locked: the standard leaves open what
-- that does, and here it is taken to leave the mutex as it is.
pub threads_main_counts :
    {lock : Bool → Option Bool} {unlock : Bool → Bool}
    → IsMutex lock unlock
    → unlock false ≡ false
    → (room : ℕ) (args : List ℤ) (algo : Algo) (num_of_threads expctd_val : ℕ)
    → threads_main room args ≡ threads algo num_of_threads expctd_val
    → algo ≢ first
    → expctd_val < 2 ^ 31
    → (s : State Globals Place)
    → Reach
        (method lock unlock algo)
        num_of_threads
        (started_threads unlock algo expctd_val num_of_threads)
        s
    → ((i : ℕ) → i < num_of_threads → s.place i ≡ over)
    → s.shared.counter ≡ expctd_val
unfolding my_threads
threads_main_counts law idle room args algo zero e started locks small s r all_over =
    absurd (omega (arith, threads_main-pos room args algo zero e started))
threads_main_counts law idle room args algo (suc m) e started locks small s r all_over =
    counter_counts law m e small algo s (rw idle at r) locks all_over
