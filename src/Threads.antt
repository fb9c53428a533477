-- ===== src/Threads.antt =====
-- 9sem/my_pthreads.c: threads that count together up to an expected value, by one of four algorithms.
-- Locking and unlocking a mutex are parameters. A statement that reads or writes `counter` is two
-- steps, one for the read and one for the write.
use sem.Prelude.{
  ℕ, zero, suc, ◌+◌, ◌/◌, ◌%◌, ◌^◌, ◌≡◌, Bool, true, false, Option, none, some, ◌==◌, if◌then◌else◌,
}
use sem.Prelude.Int.{ℤ, pos, pos_part, ◌+ℤ◌, to_int}
use sem.Process.{State}
pub mod Invariant
pub mod Methods
pub mod Work
pub mod Parts
pub mod Counts
pub mod Race
pub mod Main
pub mod Tests

-- The global variables; the mutex is locked or not.
pub record Globals : Type 0 where
  pub counter : ℕ  -- unsigned long long
  pub pthr_mut : Bool

-- What the manual says of pthread_mutex_lock, which waits where it gives `none`, and of
-- pthread_mutex_unlock.
pub record IsMutex (lock : Bool → Option Bool) (unlock : Bool → Bool) : Type 0 where
  pub takes : lock false ≡ some true
  pub waits : lock true ≡ none
  pub frees : unlock true ≡ false

-- Where a thread stands, with the rounds of its loop that are left and its local variables.
pub data Place : Type 0 where
  loop : ℕ → Place  -- the head of the loop, outside the mutex
  local : ℕ → ℕ → Place  -- the head of the loop over `loc_counter`, with its value
  lock_mutex : ℕ → Place  -- before pthread_mutex_lock
  entered : ℕ → Place  -- behind it
  read : ℕ → ℕ → Place  -- about to read `counter`, to add a number to it
  write : ℕ → ℕ → ℕ → Place  -- about to write `counter`, with the value that was read
  unlock_mutex : ℕ → Place  -- before pthread_mutex_unlock
  unlock_last : Place  -- the same, before the return
  over : Place  -- the thread has returned

abbrev pub Turn : Type 0
Turn = Option (Globals × Place)

-- Adding to `counter`, 64 bits wide.
abbrev pub sum_64 : ℕ → ℕ → ℕ
sum_64 x y = (x + y) % 2 ^ 64

-- The table `functions` of `main`.
pub data Algo : Type 0 where
  first second third fourth : Algo

module _ (lock : Bool → Option Bool) (unlock : Bool → Bool) where
  abbrev pub locking : Globals → Option Bool → Place → Turn
  locking g none p = none
  locking g (some m) p = some (record g { pthr_mut = m }, p)

  -- The two halves of `counter++` and `counter += loc_counter`.
  abbrev pub read_counter : Globals → ℕ → ℕ → Turn
  read_counter g k a = some (g, write k a g.counter)

  abbrev pub write_counter : Globals → ℕ → ℕ → Place → Turn
  write_counter g a v p = some (record g { counter = sum_64 v a }, p)

  unfoldable pub first_algo : Globals → Place → Turn
  first_algo g (loop zero) = some (g, over)
  first_algo g (loop (suc k)) = some (g, read k 1)
  first_algo g (read k a) = read_counter g k a
  first_algo g (write k a v) = write_counter g a v (loop k)
  first_algo g p = none

  unfoldable pub second_algo : Globals → Place → Turn
  second_algo g (loop zero) = some (g, over)
  second_algo g (loop (suc k)) = some (g, lock_mutex (suc k))
  second_algo g (lock_mutex k) = locking g (lock g.pthr_mut) (entered k)
  second_algo g (entered (suc k)) = some (g, read k 1)
  second_algo g (read k a) = read_counter g k a
  second_algo g (write k a v) = write_counter g a v (unlock_mutex k)
  second_algo g (unlock_mutex k) = some (record g { pthr_mut = unlock g.pthr_mut }, loop k)
  second_algo g p = none

  unfoldable pub third_algo : Globals → Place → Turn
  third_algo g (lock_mutex k) = locking g (lock g.pthr_mut) (entered k)
  third_algo g (entered zero) = some (g, unlock_last)
  third_algo g (entered (suc k)) = some (g, read k 1)
  third_algo g (read k a) = read_counter g k a
  third_algo g (write k a v) = write_counter g a v (entered k)
  third_algo g unlock_last = some (record g { pthr_mut = unlock g.pthr_mut }, over)
  third_algo g p = none

  unfoldable pub fourth_algo : Globals → Place → Turn
  fourth_algo g (local zero loc_counter) = some (g, lock_mutex loc_counter)
  fourth_algo g (local (suc k) loc_counter) = some (g, local k (loc_counter + 1))
  fourth_algo g (lock_mutex loc_counter) = locking g (lock g.pthr_mut) (entered loc_counter)
  fourth_algo g (entered loc_counter) = some (g, read zero loc_counter)
  fourth_algo g (read zero a) = read_counter g zero a
  fourth_algo g (write zero a v) = write_counter g a v unlock_last
  fourth_algo g unlock_last = some (record g { pthr_mut = unlock g.pthr_mut }, over)
  fourth_algo g p = none

  -- `functions[num_of_algo - 1]`
  abbrev pub function : Algo → Globals → Place → Turn
  function first = first_algo
  function second = second_algo
  function third = third_algo
  function fourth = fourth_algo

  -- All threads run the same function.
  abbrev pub method : Algo → ℕ → Globals → Place → Turn
  method algo i g p = function algo g p

-- A thread's place at its start, with its parameter.
abbrev pub first_place : Algo → ℕ → Place
first_place first prm = loop prm
first_place second prm = loop prm
first_place third prm = lock_mutex prm
first_place fourth prm = local prm 0

-- The two parameters of `My_threads`, for more than no threads: the first thread's and the others'.
-- A conversion to `int` follows each division.
unfoldable pub value_per_threads : ℕ → ℕ → ℤ
value_per_threads expctd_val num_of_threads = to_int (pos (expctd_val / num_of_threads))

unfoldable pub sec_param : ℕ → ℕ → ℤ
sec_param expctd_val num_of_threads =
    to_int (value_per_threads expctd_val num_of_threads +ℤ pos (expctd_val % num_of_threads))

-- The threads that `My_threads` creates. A loop up to a negative parameter makes no round.
unfoldable pub my_threads : Algo → ℕ → ℕ → State Globals Place
my_threads algo expctd_val num_of_threads = record {
  shared = record { counter = 0; pthr_mut = false };
  place = λ i. first_place algo (
      pos_part (
        if i == 0
        then sec_param expctd_val num_of_threads
        else value_per_threads expctd_val num_of_threads));
}
