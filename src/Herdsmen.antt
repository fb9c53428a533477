-- ===== src/Herdsmen.antt =====
-- semaphs_tasks/herdsmans/herds_man.c: herdsmen who share a narrow path on a mountain. `Shared int` is
-- read as it is meant: the four variables are one for all processes.
pub mod Invariant
pub mod Phases
pub mod Moves
pub mod Before
pub mod Behind
pub mod Methods
pub mod Safety
mod Tests
use sem.Prelude.{ℕ, Option, none, some, ◌==◌, if◌then◌else◌}
use sem.Prelude.Int.{ℤ, pos, negsuc, ◌+ℤ◌, ◌-ℤ◌, to_int, is_pos}
use sem.Process.{State}
use sem.Sems.{Values, Semop, Outcome, next, waits, exits, and_then, p_oper, v_oper}

-- `num_of_semaphors`, and `enum Semaphors`
abbrev pub num_of_semaphors : ℕ
num_of_semaphors = 5

abbrev pub lock_up : ℕ
lock_up = 0

abbrev pub lock_down : ℕ
lock_down = 1

abbrev pub up_queue : ℕ
up_queue = 2

abbrev pub up : ℕ
up = 3

abbrev pub down : ℕ
down = 4

-- The semaphores and the shared variables.
pub record Shared : Type 0 where
  pub sems : Values
  pub upwait : ℤ
  pub upgo : ℤ
  pub downgo : ℤ
  pub hat : ℤ  -- `Cap`

-- What a herdsman does next, first in Herdsman_down, then in Herdsman_up.
pub data Place : Type 0 where
  come : Place  -- P(LOCK_UP)
  count_wait : Place  -- Upwait++
  test_first : Place  -- Upwait != 1
  enter_queue : Place  -- V(LOCK_UP)
  in_queue : Place  -- P(UP_QUEUE)
  leave_queue : Place  -- P(LOCK_UP)
  test_hat : Place  -- !Cap
  leave_herd : Place  -- V(LOCK_UP)
  at_top : Place  -- P(LOCK_UP)
  put_hat : Place  -- Cap = 1
  hat_put : Place  -- V(LOCK_UP)
  close_top : Place  -- P(DOWN)
  enter_path : Place  -- P(UP)
  on_path : Place  -- P(LOCK_UP)
  form_column : Place  -- Upwait--
  test_wait : Place  -- Upwait != 0
  call_next : Place  -- V(UP_QUEUE)
  count_go : Place  -- Upgo++
  column_formed : Place  -- V(LOCK_UP)
  pass : Place  -- P(LOCK_UP), behind V(LOCK_UP)
  pass_locked : Place  -- P(LOCK_UP), with LOCK_UP still taken
  count_gone : Place  -- Upgo--
  test_go : Place  -- Upgo == 0
  take_hat : Place  -- Cap = 0
  open_top : Place  -- V(DOWN)
  passed : Place  -- V(LOCK_UP)
  look_hat : Place  -- P(DOWN), in Herdsman_up
  come_top : Place  -- P(LOCK_DOWN)
  test_down : Place  -- Downgo == 0
  block_bottom : Place  -- P(UP)
  count_down : Place  -- Downgo++
  go_down : Place  -- V(LOCK_DOWN)
  let_down : Place  -- V(DOWN)
  at_bottom : Place  -- P(LOCK_DOWN)
  leave_down : Place  -- Downgo--
  test_last : Place  -- Downgo == 0
  free_bottom : Place  -- V(UP)
  all_down : Place  -- V(LOCK_DOWN)
  gone : Place  -- the end of Herdsman
  exited : Place  -- `exit(0)` in a semaphore operation

abbrev pub Turn : Type 0
Turn = Option (Shared × Place)

abbrev pub resume : Shared → Outcome → Place → Turn
resume s (next v) p = some (record s { sems = v }, p)
resume s waits p = none
resume s exits p = some (s, exited)

-- `++` and `--` on an `int`. All stand behind a semaphore that is taken.
abbrev pub inc : ℤ → ℤ
inc z = to_int (z +ℤ pos 1)

abbrev pub dec : ℤ → ℤ
dec z = to_int (z -ℤ pos 1)

module _ (semop : Semop) where
  unfoldable pub herdsman : Shared → Place → Turn
  herdsman s come = resume s (p_oper semop s.sems lock_up (pos 1)) count_wait
  herdsman s count_wait = some (record s { upwait = inc s.upwait }, test_first)
  herdsman s test_first = some (s, if is_pos 1 s.upwait then test_hat else enter_queue)
  herdsman s enter_queue = resume s (v_oper semop s.sems lock_up (pos 1)) in_queue
  herdsman s in_queue = resume s (p_oper semop s.sems up_queue (pos 1)) leave_queue
  herdsman s leave_queue = resume s (p_oper semop s.sems lock_up (pos 1)) test_hat
  herdsman s test_hat = some (s, if is_pos 0 s.hat then leave_herd else form_column)
  herdsman s leave_herd = resume s (v_oper semop s.sems lock_up (pos 1)) at_top
  herdsman s at_top = resume s (p_oper semop s.sems lock_up (pos 1)) put_hat
  herdsman s put_hat = some (record s { hat = pos 1 }, hat_put)
  herdsman s hat_put = resume s (v_oper semop s.sems lock_up (pos 1)) close_top
  herdsman s close_top = resume s (p_oper semop s.sems down (pos 1)) enter_path
  herdsman s enter_path = resume s (p_oper semop s.sems up (pos 1)) on_path
  herdsman s on_path = resume s (p_oper semop s.sems lock_up (pos 1)) form_column
  herdsman s form_column = some (record s { upwait = dec s.upwait }, test_wait)
  herdsman s test_wait = some (s, if is_pos 0 s.upwait then pass_locked else call_next)
  herdsman s call_next = resume s (v_oper semop s.sems up_queue (pos 1)) count_go
  herdsman s count_go = some (record s { upgo = inc s.upgo }, column_formed)
  herdsman s column_formed = resume s (v_oper semop s.sems lock_up (pos 1)) pass
  herdsman s pass = resume s (p_oper semop s.sems lock_up (pos 1)) count_gone
  herdsman s pass_locked = resume s (p_oper semop s.sems lock_up (pos 1)) count_gone
  herdsman s count_gone = some (record s { upgo = dec s.upgo }, test_go)
  herdsman s test_go = some (s, if is_pos 0 s.upgo then take_hat else passed)
  herdsman s take_hat = some (record s { hat = pos 0 }, open_top)
  herdsman s open_top = resume s (v_oper semop s.sems down (pos 1)) passed
  herdsman s passed = resume s (v_oper semop s.sems lock_up (pos 1)) look_hat
  herdsman s look_hat = resume s (p_oper semop s.sems down (pos 1)) come_top
  herdsman s come_top = resume s (p_oper semop s.sems lock_down (pos 1)) test_down
  herdsman s test_down = some (s, if is_pos 0 s.downgo then block_bottom else at_bottom)
  herdsman s block_bottom = resume s (p_oper semop s.sems up (pos 1)) count_down
  herdsman s count_down = some (record s { downgo = inc s.downgo }, go_down)
  herdsman s go_down = resume s (v_oper semop s.sems lock_down (pos 1)) let_down
  herdsman s let_down = resume s (v_oper semop s.sems down (pos 1)) at_bottom
  herdsman s at_bottom = resume s (p_oper semop s.sems lock_down (pos 1)) leave_down
  herdsman s leave_down = some (record s { downgo = dec s.downgo }, test_last)
  herdsman s test_last = some (s, if is_pos 0 s.downgo then free_bottom else gone)
  herdsman s free_bottom = resume s (v_oper semop s.sems up (pos 1)) all_down
  herdsman s all_down = resume s (v_oper semop s.sems lock_down (pos 1)) gone
  herdsman s p = none

  -- All herdsmen do the same.
  abbrev pub method : ℕ → Shared → Place → Turn
  method i s p = herdsman s p

  unfoldable pub sems_processing : Values → Outcome
  sems_processing v = and_then (v_oper semop v lock_up (pos 1)) (λ v.
      and_then (v_oper semop v lock_down (pos 1)) (λ v.
        and_then (v_oper semop v up_queue (pos 1)) (λ v.
          and_then (p_oper semop v up_queue (pos 1))
            (λ v. and_then (v_oper semop v up (pos 1)) (λ v. v_oper semop v down (pos 1))))))

-- The herdsmen at their start, with semaphores of these values.
abbrev pub begin : Values → State Shared Place
begin v = record {
  shared = record { sems = v; upwait = pos 0; upgo = pos 0; downgo = pos 0; hat = pos 0 };
  place = λ _. come;
}
