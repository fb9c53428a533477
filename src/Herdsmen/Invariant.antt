-- ===== src/Herdsmen/Invariant.antt =====
-- What the semaphores, the shared variables and the places of the herdsmen add up to.
use sem.Prelude.{ℕ, ◌+◌, ◌^◌, ◌<◌, ◌≤◌, ◌≡◌, total, ◌⊎◌}
use sem.Prelude.Int.{pos}
use sem.Process.{State}
use sem.Herdsmen.{
  Shared, Place, come, count_wait, test_first, enter_queue, in_queue, leave_queue, test_hat,
  leave_herd, at_top, put_hat, hat_put, close_top, enter_path, on_path, form_column, test_wait,
  call_next, count_go, column_formed, pass_locked, count_gone, test_go, take_hat, open_top, passed,
  count_down, go_down, let_down, at_bottom, leave_down, test_last, free_bottom, all_down, gone,
  exited, lock_up, up_queue, up,
}

-- Has taken LOCK_UP.
abbrev pub locks : ℕ → Place → ℕ
locks i count_wait = 1
locks i test_first = 1
locks i enter_queue = 1
locks i test_hat = 1
locks i leave_herd = 1
locks i put_hat = 1
locks i hat_put = 1
locks i form_column = 1
locks i test_wait = 1
locks i call_next = 1
locks i count_go = 1
locks i column_formed = 1
locks i pass_locked = 1
locks i count_gone = 1
locks i test_go = 1
locks i take_hat = 1
locks i open_top = 1
locks i passed = 1
locks i exited = 1
locks i p = 0

-- Is counted in Upwait.
abbrev pub counted : ℕ → Place → ℕ
counted i test_first = 1
counted i enter_queue = 1
counted i in_queue = 1
counted i leave_queue = 1
counted i test_hat = 1
counted i leave_herd = 1
counted i at_top = 1
counted i put_hat = 1
counted i hat_put = 1
counted i close_top = 1
counted i enter_path = 1
counted i on_path = 1
counted i form_column = 1
counted i p = 0

-- Leads the others: has passed the queue, and not yet entered the path.
abbrev pub leads : ℕ → Place → ℕ
leads i test_hat = 1
leads i leave_herd = 1
leads i at_top = 1
leads i put_hat = 1
leads i hat_put = 1
leads i close_top = 1
leads i enter_path = 1
leads i p = 0

-- Has put his hat down, and not yet entered the path.
abbrev pub hats : ℕ → Place → ℕ
hats i hat_put = 1
hats i close_top = 1
hats i enter_path = 1
hats i p = 0

-- Is still at a place that comes before the path.
abbrev pub IsBefore : Place → Type 0
IsBefore come = Unit
IsBefore count_wait = Unit
IsBefore test_first = Unit
IsBefore enter_queue = Unit
IsBefore in_queue = Unit
IsBefore test_hat = Unit
IsBefore leave_herd = Unit
IsBefore at_top = Unit
IsBefore put_hat = Unit
IsBefore hat_put = Unit
IsBefore close_top = Unit
IsBefore enter_path = Unit
IsBefore p = ⊥

-- Has not blocked the bottom, on the way down.
abbrev pub IsAbove : Place → Type 0
IsAbove count_down = ⊥
IsAbove go_down = ⊥
IsAbove let_down = ⊥
IsAbove at_bottom = ⊥
IsAbove leave_down = ⊥
IsAbove test_last = ⊥
IsAbove free_bottom = ⊥
IsAbove all_down = ⊥
IsAbove gone = ⊥
IsAbove p = Unit

-- Before the first herdsman enters the path.
pub record Early (n : ℕ) (s : State Shared Place) : Type 0 where
  pub free : s.shared.sems up ≡ 1
  pub no_call : s.shared.sems up_queue ≡ 0
  pub one_leads : total leads n s.place ≤ 1
  pub hat_down : s.shared.hat ≡ pos (total hats n s.place)
  pub before : (i : ℕ) → i < n → IsBefore (s.place i)

abbrev pub Phase : ℕ → State Shared Place → Type 0
Phase n s = Early n s ⊎ (s.shared.sems up ≡ 0)

pub record Inv (n : ℕ) (s : State Shared Place) : Type 0 where
  pub few : n + 1 < 2 ^ 31
  pub one_locks : s.shared.sems lock_up + total locks n s.place ≡ 1
  pub waiting : s.shared.upwait ≡ pos (total counted n s.place)
  pub no_down : s.shared.downgo ≡ pos 0
  pub above : (i : ℕ) → i < n → IsAbove (s.place i)
  pub phase : Phase n s
