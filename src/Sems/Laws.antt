-- ===== src/Sems/Laws.antt =====
-- What P, V and Z do on the values of the set, from what the manual says of `semop`.
use sem.Prelude.{
  ℕ, zero, suc, ◌+◌, ◌-◌, ◌<◌, ◌≤◌, ◌≡◌, refl, arith, leb, ◌==◌, if◌then◌else◌, update,
}
use sem.Prelude.Int.{pos, negsuc}
use sem.Sems.{Values, Semop, IsSemop, semvmx, next, waits, exits, p_oper, v_oper, z_oper}

module _ (semop : Semop) where
  -- P with a number that is not positive does not take from the semaphore. With 0 it is Z; with a
  -- negative number other than -32768 it is V of the opposite number; -32768 has no opposite in a
  -- `short int`, and P of it is V of it.
  pub p_oper_of_not_pos :
      (v : Values) (i n : ℕ)
      → n < semvmx
      → (p_oper semop v i (pos 0) ≡ z_oper semop v i)
        × (p_oper semop v i (negsuc n) ≡ v_oper semop v i (pos (n + 1)))
        × (p_oper semop v i (negsuc semvmx) ≡ v_oper semop v i (negsuc semvmx))
  unfolding p_oper v_oper z_oper
  p_oper_of_not_pos v i n small = (refl, ground arith, refl)

module _ {nsems : ℕ} {semop : Semop} (law : IsSemop nsems semop) where
  -- P with a positive number of a `short int` takes it from the semaphore, or waits for it.
  pub p_oper_takes :
      (v : Values) (i n : ℕ)
      → i < nsems
      → 1 ≤ n
      → n ≤ semvmx
      → p_oper semop v i (pos n) ≡ (if leb n (v i) then next (update v i (v i - n)) else waits)
  unfolding p_oper
  p_oper_takes v i zero lt one small = absurd (omega arith)
  p_oper_takes v i (suc n) lt one small = ground (arith, law.takes v i n, law.take_sleeps v i n)

  -- V with a positive number adds it, and the process exits where that would pass the maximum.
  pub v_oper_adds :
      (v : Values) (i n : ℕ)
      → i < nsems
      → 1 ≤ n
      → n ≤ semvmx
      → v_oper semop v i (pos n)
        ≡ (if leb (v i + n) semvmx then next (update v i (v i + n)) else exits)
  unfolding v_oper
  v_oper_adds v i n lt one small = ground (arith, law.adds v i n, law.erange v i n)

  pub p_oper_one :
      (v : Values) (i : ℕ)
      → i < nsems
      → 1 ≤ v i
      → p_oper semop v i (pos 1) ≡ next (update v i (v i - 1))
  p_oper_one v i lt has = ground (arith, p_oper_takes v i 1)

  pub v_oper_one :
      (v : Values) (i : ℕ)
      → i < nsems
      → v i < semvmx
      → v_oper semop v i (pos 1) ≡ next (update v i (v i + 1))
  v_oper_one v i lt room = ground (arith, v_oper_adds v i 1)

  pub z_oper_lem :
      (v : Values) (i : ℕ) → i < nsems → z_oper semop v i ≡ (if v i == 0 then next v else waits)
  unfolding z_oper
  z_oper_lem v i lt = ground (arith, law.zero_passes v i, law.zero_sleeps v i)

  -- V after a P of the same number gives every semaphore its value back.
  pub v_oper-p_oper :
      (v w : Values) (i n : ℕ)
      → i < nsems
      → 1 ≤ n
      → v i ≤ semvmx
      → p_oper semop v i (pos n) ≡ next w
      → n ≤ semvmx
      → (u : Values) × (v_oper semop w i (pos n) ≡ next u) × ((j : ℕ) → u j ≡ v j)
  v_oper-p_oper v w i n lt one bounded took small = (
    update w i (w i + n),
    ground (arith, p_oper_takes v i n lt one small, v_oper_adds w i n lt one small),
    λ j. ground (arith, p_oper_takes v i n lt one small),
  )

  pub z_oper_zero : (v : Values) (i : ℕ) → i < nsems → v i ≡ 0 → z_oper semop v i ≡ next v
  z_oper_zero v i lt z = ground (arith, z_oper_lem v i lt)
