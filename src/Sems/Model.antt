-- ===== src/Sems/Model.antt =====
-- A set of semaphores that does what the manual says: it shows that the hypotheses on `semop` can
-- be met, and the examples run on it.
use sem.Prelude.{
  ℕ, zero, suc, ◌+◌, ◌-◌, ◌<◌, ◌≤◌, ◌≡◌, arith, ltb, leb, ◌==◌, if◌then◌else◌, update,
}
use sem.Prelude.Int.{ℤ, pos, negsuc}
use sem.Sems.{Values, Semop, SemopResult, success, sleeps, failure, IsSemop, semvmx}

abbrev on_values : Values → ℕ → ℤ → SemopResult
on_values v i (pos zero) = if v i == 0 then success v else sleeps
on_values v i (pos (suc n)) =
    if leb (v i + suc n) semvmx then success (update v i (v i + suc n)) else failure
on_values v i (negsuc n) =
    if leb (n + 1) (v i) then success (update v i (v i - (n + 1))) else sleeps

unfoldable pub kernel_semop : ℕ → Semop
kernel_semop nsems v i z = if ltb i nsems then on_values v i z else failure

adds_lem :
    (nsems : ℕ) (v : Values) (i n : ℕ)
    → i < nsems
    → 1 ≤ n
    → v i + n ≤ semvmx
    → kernel_semop nsems v i (pos n) ≡ success (update v i (v i + n))
unfolding kernel_semop
adds_lem nsems v i zero lt one fits = absurd (omega arith)
adds_lem nsems v i (suc n) lt one fits = ground arith

erange_lem :
    (nsems : ℕ) (v : Values) (i n : ℕ)
    → i < nsems
    → 1 ≤ n
    → semvmx < v i + n
    → kernel_semop nsems v i (pos n) ≡ failure
unfolding kernel_semop
erange_lem nsems v i zero lt one big = absurd (omega arith)
erange_lem nsems v i (suc n) lt one big = ground arith

pub kernel_semop-IsSemop : (nsems : ℕ) → IsSemop nsems (kernel_semop nsems)
unfolding kernel_semop
kernel_semop-IsSemop nsems = record {
  adds = adds_lem nsems;
  erange = erange_lem nsems;
  takes = λ v i n lt enough. ground arith;
  take_sleeps = λ v i n lt few. ground arith;
  zero_passes = λ v i lt z. ground arith;
  zero_sleeps = λ v i lt p. ground arith;
  efbig = λ v i z out. ground arith;
}
