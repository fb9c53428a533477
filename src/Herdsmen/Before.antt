-- ===== src/Herdsmen/Before.antt =====
-- The steps of a herdsman up to the path keep the invariant.
use sem.Prelude.{
  ℕ, ◌+◌, ◌^◌, ◌<◌, ◌≡◌, refl, arith, ap, ◌∙◌, some, if◌then◌else◌, Bool-cases, inl, inr, true,
  false,
}
use sem.Prelude.Int.{ℤ, pos, to_int-pos, ◌+ℤ◌, is_pos}
use sem.Process.{State}
use sem.Sems.{Semop, IsSemop, p_oper}
use sem.Herdsmen.{
  Shared, Place, come, count_wait, test_first, enter_queue, in_queue, leave_queue, test_hat,
  leave_herd, at_top, put_hat, hat_put, close_top, enter_path, on_path, form_column, lock_up,
  up_queue, up, down, num_of_semaphors, Turn, resume, inc, herdsman,
}
use sem.Herdsmen.Invariant.{IsBefore, Inv}
use sem.Herdsmen.Phases.{step-Inv, quiet, first_leads, no_hat, puts_hat, enters}
use sem.Herdsmen.Moves.{Target, landed, kept, took, walked, takes, unlocks}

inc_pos : (z : ℤ) (c : ℕ) → c + 1 < 2 ^ 31 → z ≡ pos c → inc z ≡ pos (c + 1)
unfolding ◌+ℤ◌
inc_pos z c small e = rw e (ground (arith, to_int-pos (c + 1)))

is_pos_lem : (m : ℕ) (z : ℤ) → is_pos m z ≡ true → z ≡ pos m
is_pos_lem m z e = ground arith

hat_there : {z : ℤ} → z ≡ pos 0 → is_pos 0 z ≡ false → ⊥
hat_there h e = ground arith

module _ {semop : Semop} (law : IsSemop num_of_semaphors semop) (n : ℕ) (s : State Shared Place)
    (i : ℕ) (x : Shared) (q : Place) (lt : i < n) (inv : Inv n s) where
  abbrev Goal : Type 0
  Goal = Target law n s i x q lt inv

  counts :
      (at : s.place i ≡ count_wait)
      → ◌≡◌ {A = Turn}
          (some (record s.shared { upwait = inc s.shared.upwait }, test_first))
          (some (x, q))
      → Goal
  counts at e =
      let y : Shared = record s.shared { upwait = inc s.shared.upwait } in
      landed law n s i x q lt inv y test_first e (
        step-Inv n s i lt inv count_wait at y test_first
          (record {
            lock = refl;
            wait = λ c small h. inc_pos s.shared.upwait c small (h ∙ ap pos (omega arith));
            downs = refl;
            still_above = tt;
          })
          (quiet n s i lt inv count_wait at y test_first (λ b. tt) refl refl refl refl refl))

  first_test :
      (at : s.place i ≡ test_first)
      → ◌≡◌ {A = Turn}
          (some (s.shared, if is_pos 1 s.shared.upwait then test_hat else enter_queue))
          (some (x, q))
      → Goal
  first_test at e = elim (Bool-cases (is_pos 1 s.shared.upwait)) [
    | inl one ↦ landed law n s i x q lt inv s.shared test_hat (rw one at e) (
        kept law n s i x q lt inv test_first at s.shared test_hat refl refl refl refl tt (
          first_leads n s i lt inv test_first at s.shared test_hat refl refl
            (is_pos_lem 1 s.shared.upwait one) refl))
    | inr others ↦
        walked law n s i x q lt inv test_first enter_queue at (rw others at e) refl refl tt
          (inl (λ b. tt, refl, refl))
  ]

  hat_test :
      (at : s.place i ≡ test_hat)
      → ◌≡◌ {A = Turn}
          (some (s.shared, if is_pos 0 s.shared.hat then leave_herd else form_column))
          (some (x, q))
      → Goal
  hat_test at e = elim (Bool-cases (is_pos 0 s.shared.hat)) [
    | inl bare ↦
        walked law n s i x q lt inv test_hat leave_herd at (rw bare at e) refl refl tt
          (inl (λ b. tt, refl, refl))
    | inr hat ↦ landed law n s i x q lt inv s.shared form_column (rw hat at e) (
        kept law n s i x q lt inv test_hat at s.shared form_column refl refl refl refl tt
          (elim inv.phase [
            | inl early ↦
                absurd
                  (hat_there (no_hat n s i lt inv test_hat at s.shared form_column early refl) hat)
            | inr late ↦ inr late
          ]))
  ]

  -- In the first phase the queue is shut.
  out_of_queue :
      (at : s.place i ≡ in_queue)
      → resume s.shared (p_oper semop s.shared.sems up_queue (pos 1)) leave_queue ≡ some (x, q)
      → Goal
  out_of_queue at e =
      let (less, (same_wait, same_down, same_hat), place_same) =
        took law n s i x q lt inv up_queue leave_queue (omega arith) e in
      rw place_same (
        kept law n s i x q lt inv in_queue at x leave_queue same_wait same_down
          (omega (arith, less lock_up)) refl tt
          (elim inv.phase [
            | inl early ↦ absurd (omega (arith, early.no_call, less up_queue))
            | inr late ↦ inr (omega (arith, less up))
          ]))

  on_the_path :
      (at : s.place i ≡ enter_path)
      → resume s.shared (p_oper semop s.shared.sems up (pos 1)) on_path ≡ some (x, q)
      → Goal
  on_the_path at e =
      let (less, (same_wait, same_down, same_hat), place_same) =
        took law n s i x q lt inv up on_path (omega arith) e in
      rw place_same (
        kept law n s i x q lt inv enter_path at x on_path same_wait same_down
          (omega (arith, less lock_up)) refl tt
          (enters n s i lt inv enter_path at x on_path refl refl (omega (arith, less up))))

  pub before-Inv :
      (p : Place) → s.place i ≡ p → IsBefore p → herdsman semop s.shared p ≡ some (x, q) → Goal
  unfolding herdsman
  before-Inv come at b e =
      takes law n s i x q lt inv lock_up come count_wait (omega arith) at e refl (refl, refl) refl
        tt (inl (λ b. tt, refl, refl))
  before-Inv count_wait at b e = counts at e
  before-Inv test_first at b e = first_test at e
  before-Inv enter_queue at b e =
      unlocks law n s i x q lt inv enter_queue in_queue at e refl refl refl tt
        (inl (λ b. tt, refl, refl))
  before-Inv in_queue at b e = out_of_queue at e
  before-Inv test_hat at b e = hat_test at e
  before-Inv leave_herd at b e =
      unlocks law n s i x q lt inv leave_herd at_top at e refl refl refl tt
        (inl (λ b. tt, refl, refl))
  before-Inv at_top at b e =
      takes law n s i x q lt inv lock_up at_top put_hat (omega arith) at e refl (refl, refl) refl tt
        (inl (λ b. tt, refl, refl))
  before-Inv put_hat at b e =
      landed law n s i x q lt inv (record s.shared { hat = pos 1 }) hat_put e
        (kept law n s i x q lt inv put_hat at (record s.shared { hat = pos 1 }) hat_put refl refl
          refl refl tt
          (puts_hat n s i lt inv put_hat at (record s.shared { hat = pos 1 }) hat_put refl refl
            refl))
  before-Inv hat_put at b e =
      unlocks law n s i x q lt inv hat_put close_top at e refl refl refl tt
        (inl (λ b. tt, refl, refl))
  before-Inv close_top at b e =
      takes law n s i x q lt inv down close_top enter_path (omega arith) at e refl (refl, refl) refl
        tt (inl (λ b. tt, refl, refl))
  before-Inv enter_path at b e = on_the_path at e
  before-Inv p at b e = absurd b
