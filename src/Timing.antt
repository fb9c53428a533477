-- ===== src/Timing.antt =====
-- 4sem/my_exec.c and Final_work/Final_work.c: running a program and printing the time that it takes;
-- with Print_time of 5sem/my_pipe.c and of 9sem/my_pthreads.c, which is that of my_exec.c. The
-- arithmetic of `double` and the results of the system calls are arguments.
pub mod Exact
mod Tests
use sem.Prelude.{
  ℕ, zero, suc, ◌*◌, ◌+◌, ◌^◌, ◌≤◌, ◌≡◌, Bool, true, false, not, Option, none, some, List, [], ◌∷◌,
  if◌then◌else◌,
}
use sem.Prelude.Int.{ℤ, pos, negsuc, pos_part, neg_part, sub_ℕ, ◌+ℤ◌, ◌-ℤ◌}

-- `struct timespec`
pub record Timespec : Type 0 where
  pub tv_sec : ℤ
  pub tv_nsec : ℤ

-- `double`: the conversion of an integer, `*`, `/` and `+`.
pub record Doubles : Type 1 where
  pub Double : Type 0
  pub of_int : ℤ → Double
  pub times : Double → Double → Double
  pub over : Double → Double → Double
  pub plus : Double → Double → Double

module _ (d : Doubles) where
  abbrev pub secs : Timespec → Timespec → d.Double
  secs start_clock final_clock = d.of_int (final_clock.tv_sec -ℤ start_clock.tv_sec)

  abbrev pub nsecs : Timespec → Timespec → d.Double
  nsecs start_clock final_clock = d.of_int (final_clock.tv_nsec -ℤ start_clock.tv_nsec)

  -- The number that Print_time prints.
  unfoldable pub print_time : Timespec → Timespec → d.Double
  print_time start_clock final_clock =
      d.plus (d.times (secs start_clock final_clock) (d.of_int (pos 1000)))
        (d.over (nsecs start_clock final_clock) (d.of_int (pos 1000000)))

  -- Print_time of my_pipe.c and of my_pthreads.c
  abbrev pub print_time_pipe : Timespec → Timespec → d.Double
  print_time_pipe = print_time

  abbrev pub print_time_threads : Timespec → Timespec → d.Double
  print_time_threads = print_time

  -- Print_real_time
  unfoldable pub print_real_time : Timespec → Timespec → d.Double
  print_real_time start_clock final_clock =
      d.over
        (d.plus (d.times (secs start_clock final_clock) (d.of_int (pos 1000)))
          (d.over (nsecs start_clock final_clock) (d.of_int (pos 1000000))))
        (d.of_int (pos 1000))

  -- What My_exec of my_exec.c does in the parent: the time it prints, and what it returns; behind the
  -- printing it returns no value, `none`. `main` does not look at it.
  pub record ExecReport : Type 0 where
    pub time : Option d.Double
    pub returned : Option ℤ

  -- A clock that is read: `none` where clock_gettime fails.
  unfoldable pub exec_parent : Option Timespec → Bool → Option Timespec → ExecReport
  exec_parent none waited final_clock = record { time = none; returned = some (negsuc 0) }
  exec_parent (some start_clock) false final_clock = record {
    time = none;
    returned = some (negsuc 0);
  }
  exec_parent (some start_clock) true none = record { time = none; returned = some (negsuc 0) }
  exec_parent (some start_clock) true (some final_clock) = record {
    time = some (print_time start_clock final_clock);
    returned = none;
  }

  -- `main`, by the number of arguments behind the name: what is printed; 0 is returned in each case.
  unfoldable pub exec_main : ℕ → Option Timespec → Bool → Option Timespec → Option d.Double
  exec_main zero start_clock waited final_clock = none
  exec_main (suc args) start_clock waited final_clock =
      (exec_parent start_clock waited final_clock).time

  -- `struct tms`
  pub record Tms : Type 0 where
    pub tms_utime : ℤ
    pub tms_stime : ℤ
    pub tms_cutime : ℤ
    pub tms_cstime : ℤ

  -- The three numbers that My_time prints.
  pub record TimeReport : Type 0 where
    pub real : d.Double
    pub user : d.Double
    pub sys : d.Double

  -- A clock that is not read stays 0.
  abbrev pub read_clock : Option Timespec → Timespec
  read_clock none = record { tv_sec = pos 0; tv_nsec = pos 0 }
  read_clock (some clock) = clock

  -- My_time in the parent. It goes on behind each call that fails; `another_time` is what the struct
  -- holds then, whether `times` has written it or not.
  unfoldable pub my_time : Option Timespec → Option Timespec → Tms → TimeReport
  my_time start_clock final_clock another_time = record {
    real = print_real_time (read_clock start_clock) (read_clock final_clock);
    user = d.of_int (another_time.tms_utime +ℤ another_time.tms_cutime);
    sys = d.of_int (another_time.tms_stime +ℤ another_time.tms_cstime);
  }
