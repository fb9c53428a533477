-- ===== src/Sems.antt =====
-- semaphs_tasks/bridge_simulator/semaphs.h, semaphs_tasks/herdsmans/semaphors.h, 7sem/semaphors.h
-- and 8sem/semaphors.h: the operations P, V and Z on a System V semaphore set, the same code in
-- each. The system call `semop` is a parameter.
pub mod Laws
pub mod Model
mod Tests
use sem.Prelude.{ℕ, ◌+◌, ◌-◌, ◌%◌, ◌^◌, ◌<◌, ◌≤◌, ◌≡◌, ltb, if◌then◌else◌, update}
use sem.Prelude.Int.{ℤ, pos, negsuc, ◌-ℤ◌}

-- The values of a set of semaphores, by number.
abbrev pub Values : Type 0
Values = ℕ → ℕ

-- What a call of `semop` with one operation and no flags does: it returns 0 with the new values,
-- it puts the caller to sleep, or it returns -1.
pub data SemopResult : Type 0 where
  success : Values → SemopResult
  sleeps : SemopResult
  failure : SemopResult

-- semop(sem_id, {sem_num, sem_op, 0}, 1) on a set with these values.
abbrev pub Semop : Type 0
Semop = Values → ℕ → ℤ → SemopResult

-- The largest value of a semaphore (SEMVMX).
abbrev pub semvmx : ℕ
semvmx = 32767

-- What the manual page semop(2) says of a set of `nsems` semaphores.
pub record IsSemop (nsems : ℕ) (semop : Semop) : Type 0 where
  pub adds :
      (v : Values) (i n : ℕ)
      → i < nsems
      → 1 ≤ n
      → v i + n ≤ semvmx
      → semop v i (pos n) ≡ success (update v i (v i + n))
  pub erange :
      (v : Values) (i n : ℕ) → i < nsems → 1 ≤ n → semvmx < v i + n → semop v i (pos n) ≡ failure
  pub takes :
      (v : Values) (i n : ℕ)
      → i < nsems
      → n + 1 ≤ v i
      → semop v i (negsuc n) ≡ success (update v i (v i - (n + 1)))
  pub take_sleeps : (v : Values) (i n : ℕ) → i < nsems → v i < n + 1 → semop v i (negsuc n) ≡ sleeps
  pub zero_passes : (v : Values) (i : ℕ) → i < nsems → v i ≡ 0 → semop v i (pos 0) ≡ success v
  pub zero_sleeps : (v : Values) (i : ℕ) → i < nsems → 0 < v i → semop v i (pos 0) ≡ sleeps
  pub efbig : (v : Values) (i : ℕ) (z : ℤ) → nsems ≤ i → semop v i z ≡ failure

-- How an operation ends: it returns with the new values, the process waits in it, or the process
-- has called `exit(0)` after a failed `semop`.
pub data Outcome : Type 0 where
  next : Values → Outcome
  waits : Outcome
  exits : Outcome

-- One operation after another.
abbrev pub and_then : Outcome → (Values → Outcome) → Outcome
and_then (next v) f = f v
and_then waits f = waits
and_then exits f = exits

-- A conversion to `short int`.
unfoldable pub to_short : ℤ → ℤ
to_short (pos n) = let u = n % 2 ^ 16 in if ltb u (2 ^ 15) then pos u else negsuc (2 ^ 16 - 1 - u)
to_short (negsuc n) =
    let u = n % 2 ^ 16 in if ltb u (2 ^ 15) then negsuc u else pos (2 ^ 16 - 1 - u)

-- The test on the result of `semop`, the same in the three operations.
abbrev pub checked : SemopResult → Outcome
checked (success v) = next v
checked sleeps = waits
checked failure = exits

module _ (semop : Semop) where
  unfoldable pub p_oper : Values → ℕ → ℤ → Outcome
  unfolding to_short ◌-ℤ◌
  p_oper v sem_name num = checked (semop v sem_name (to_short (pos 0 -ℤ num)))

  unfoldable pub v_oper : Values → ℕ → ℤ → Outcome
  unfolding to_short
  v_oper v sem_name num = checked (semop v sem_name (to_short num))

  unfoldable pub z_oper : Values → ℕ → Outcome
  z_oper v sem_name = checked (semop v sem_name (pos 0))
