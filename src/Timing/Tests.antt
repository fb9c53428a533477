-- ===== src/Timing/Tests.antt =====
-- Printing times with integers in place of `double`.
use sem.Prelude.{ℕ, suc, ◌*◌, ◌/◌, ◌-◌, ◌≤◌, ◌≡◌, refl, sym, ◌∙◌, ap, arith, true, none, some}
use sem.Prelude.Int.{ℤ, pos, negsuc, sub_ℕ, pos_part, ◌+ℤ◌, ◌-ℤ◌}
use native.Mathlib.Nat.{mul-div_cancel_left}
use sem.Timing.{Timespec, Doubles, print_time, print_real_time, exec_main, exec_parent, my_time}
use sem.Timing.Exact.{IsExact, scale, print_time_exact}

-- Division toward 0.
abbrev quotient : ℤ → ℤ → ℤ
quotient (pos k) by = pos (k / pos_part by)
quotient (negsuc k) by = sub_ℕ 0 (suc k / pos_part by)

abbrev integers : Doubles
integers = record {
  Double = ℤ;
  of_int = λ z. z;
  times = λ z by. scale (pos_part by) z;
  over = quotient;
  plus = ◌+ℤ◌;
}

scale-pos : (n k : ℕ) → scale n (pos k) ≡ pos (n * k)
scale-pos n k = ground arith

scale-negsuc : (n k m : ℕ) → n * suc k ≡ suc m → scale n (negsuc k) ≡ negsuc m
scale-negsuc n k m e = ground arith

quotient-scale : (z : ℤ) (n : ℕ) → 1 ≤ n → quotient (scale n z) (pos n) ≡ z
quotient-scale (pos k) n some_n =
    ap (λ z. quotient z (pos n)) (scale-pos n k) ∙ ap pos (mul-div_cancel_left k some_n)
quotient-scale (negsuc k) n some_n =
    let m : ℕ = n * suc k - 1 in
    let e : n * suc k ≡ suc m = grind arith in
    let back : suc m / n ≡ suc k = ap (λ j. j / n) (sym e) ∙ mul-div_cancel_left (suc k) some_n in
    ap (λ z. quotient z (pos n)) (scale-negsuc n k m e) ∙ rw back (ground arith)

law : IsExact integers
law = record {
  times_exact = λ z n some_n small. refl;
  over_exact = λ z n some_n small. quotient-scale z n some_n;
  plus_exact = λ y z small large both. refl;
}

-- From 5.9 to 7.1 seconds.
abbrev first_clock : Timespec
first_clock = record { tv_sec = pos 5; tv_nsec = pos 900000000 }

abbrev last_clock : Timespec
last_clock = record { tv_sec = pos 7; tv_nsec = pos 100000000 }

printed : exec_main integers 1 (some first_clock) true (some last_clock) ≡ some (pos 1200)
unfolding exec_main exec_parent print_time ◌+ℤ◌ ◌-ℤ◌
printed = refl

-- Where the second clock fails nothing is printed by my_exec.c, and Final_work.c prints a time all the
-- same.
failed :
    (exec_main integers 1 (some first_clock) true none ≡ none)
    × ((my_time integers (some first_clock) none (record {
      tms_utime = pos 0;
      tms_stime = pos 0;
      tms_cutime = pos 3;
      tms_cstime = pos 1;
    })).real
        ≡ negsuc 4)
unfolding exec_main exec_parent my_time print_real_time ◌+ℤ◌ ◌-ℤ◌
failed = (refl, refl)

whole : pos 100000000 -ℤ pos 900000000 ≡ scale 1000000 (negsuc 799)
unfolding ◌-ℤ◌
whole = refl

print_time_exact_example :
    (print_time integers first_clock last_clock ≡ scale 1000 (pos 7 -ℤ pos 5) +ℤ negsuc 799)
    × (print_real_time integers first_clock last_clock
        ≡ quotient (print_time integers first_clock last_clock) (pos 1000))
unfolding ◌-ℤ◌ ◌+ℤ◌
print_time_exact_example =
    print_time_exact law first_clock last_clock (negsuc 799) whole (omega arith) (omega arith)
      (omega arith)
