-- ===== src/Timing/Exact.antt =====
-- The time that is printed, in milliseconds.
use sem.Prelude.{ℕ, ◌*◌, ◌+◌, ◌^◌, ◌≤◌, ◌≡◌, refl, arith, ap, ◌∙◌}
use mathlib.Core.Path.{ap₂}
use sem.Prelude.Int.{ℤ, pos, negsuc, pos_part, neg_part, sub_ℕ, ◌+ℤ◌, ◌-ℤ◌}
use sem.Timing.{Timespec, Doubles, print_time, print_real_time}

-- n times an integer, and its absolute value.
abbrev pub scale : ℕ → ℤ → ℤ
scale n z = sub_ℕ (n * pos_part z) (n * neg_part z)

abbrev pub size : ℤ → ℕ
size z = pos_part z + neg_part z

-- What IEEE 754 says of integers: up to 2^53 they are converted exactly, and an operation of which the
-- result is such an integer gives it.
pub record IsExact (d : Doubles) : Type 0 where
  pub times_exact :
      (z : ℤ) (n : ℕ)
      → 1 ≤ n
      → n * size z ≤ 2 ^ 53
      → d.times (d.of_int z) (d.of_int (pos n)) ≡ d.of_int (scale n z)
  pub over_exact :
      (z : ℤ) (n : ℕ)
      → 1 ≤ n
      → n * size z ≤ 2 ^ 53
      → d.over (d.of_int (scale n z)) (d.of_int (pos n)) ≡ d.of_int z
  pub plus_exact :
      (y z : ℤ)
      → size y ≤ 2 ^ 53
      → size z ≤ 2 ^ 53
      → size (y +ℤ z) ≤ 2 ^ 53
      → d.plus (d.of_int y) (d.of_int z) ≡ d.of_int (y +ℤ z)

size-scale : (z : ℤ) → size (scale 1000 z) ≤ 1000 * size z
size-scale (pos n) = ground arith
size-scale (negsuc n) = ground arith

-- Where the difference of the nanoseconds, which can be negative, is a whole number of milliseconds,
-- and no number is beyond 2^53: Print_time prints exactly the milliseconds that have passed; and
-- Print_real_time prints the number of Print_time divided by 1000.
pub print_time_exact :
    {d : Doubles}
    → IsExact d
    → (start_clock final_clock : Timespec) (msecs : ℤ)
    → final_clock.tv_nsec -ℤ start_clock.tv_nsec ≡ scale 1000000 msecs
    → 1000000 * size msecs ≤ 2 ^ 53
    → 1000 * size (final_clock.tv_sec -ℤ start_clock.tv_sec) ≤ 2 ^ 53
    → size (scale 1000 (final_clock.tv_sec -ℤ start_clock.tv_sec) +ℤ msecs) ≤ 2 ^ 53
    → (print_time d start_clock final_clock
        ≡ d.of_int (scale 1000 (final_clock.tv_sec -ℤ start_clock.tv_sec) +ℤ msecs))
      × (print_real_time d start_clock final_clock
          ≡ d.over (print_time d start_clock final_clock) (d.of_int (pos 1000)))
unfolding print_time print_real_time
print_time_exact {d} law start_clock final_clock msecs whole few_msecs few_secs few_all =
    let dif : ℤ = final_clock.tv_sec -ℤ start_clock.tv_sec in
    let million : d.Double = d.of_int (pos 1000000) in
    let nsec_part : d.over (d.of_int (final_clock.tv_nsec -ℤ start_clock.tv_nsec)) million
        ≡ d.of_int msecs =
      ap (λ z. d.over (d.of_int z) million) whole
      ∙ law.over_exact msecs 1000000 (omega arith) few_msecs in
    (
      ap₂ d.plus (law.times_exact dif 1000 (omega arith) few_secs) nsec_part
          ∙ law.plus_exact (scale 1000 dif) msecs (omega (arith, size-scale dif, few_secs))
              (omega (arith, few_msecs)) few_all,
      refl,
    )
