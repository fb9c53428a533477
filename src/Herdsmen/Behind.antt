-- ===== src/Herdsmen/Behind.antt =====
-- The steps of a herdsman on the path and behind it keep the invariant.
use sem.Prelude.{
  ℕ, ◌+◌, ◌^◌, ◌<◌, ◌≡◌, refl, arith, ap, ◌∙◌, some, le-total, Bool-cases, inl, inr, true,
}
use sem.Prelude.Int.{ℤ, pos, to_int-pos, ◌-ℤ◌, is_pos}
use sem.Process.{State}
use sem.Sems.{Semop, IsSemop}
use sem.Herdsmen.{
  Shared, Place, come, count_wait, test_first, enter_queue, in_queue, leave_queue, test_hat,
  leave_herd, at_top, put_hat, hat_put, close_top, enter_path, on_path, form_column, test_wait,
  call_next, count_go, column_formed, pass, pass_locked, count_gone, test_go, take_hat, open_top,
  passed, look_hat, come_top, test_down, block_bottom, count_down, exited, lock_up, lock_down,
  up_queue, up, down, num_of_semaphors, Turn, inc, dec, herdsman,
}
use sem.Herdsmen.Invariant.{locks, IsBefore, IsAbove, Inv}
use sem.Herdsmen.Phases.{step-Inv, beyond}
use sem.Herdsmen.Moves.{Target, landed, kept, took, walked, takes, unlocks, calls}

dec_pos : (z : ℤ) (c : ℕ) → c + 1 < 2 ^ 31 → z ≡ pos (c + 1) → dec z ≡ pos c
unfolding ◌-ℤ◌
dec_pos z c small e = rw e (ground (arith, to_int-pos c))

module _ {semop : Semop} (law : IsSemop num_of_semaphors semop) (n : ℕ) (s : State Shared Place)
    (i : ℕ) (x : Shared) (q : Place) (lt : i < n) (inv : Inv n s) where
  abbrev Goal : Type 0
  Goal = Target law n s i x q lt inv

  forms :
      (at : s.place i ≡ form_column)
      → ◌≡◌ {A = Turn}
          (some (record s.shared { upwait = dec s.shared.upwait }, test_wait))
          (some (x, q))
      → Goal
  forms at e =
      let y : Shared = record s.shared { upwait = dec s.shared.upwait } in
      landed law n s i x q lt inv y test_wait e (
        step-Inv n s i lt inv form_column at y test_wait
          (record {
            lock = refl;
            wait = λ c small h. dec_pos s.shared.upwait c small h ∙ ap pos (omega arith);
            downs = refl;
            still_above = tt;
          })
          (beyond n s i lt inv form_column at y test_wait (λ b. b) refl))

  pub behind-Inv :
      (p : Place)
      → s.place i ≡ p
      → (IsBefore p → ⊥)
      → IsAbove p
      → herdsman semop s.shared p ≡ some (x, q)
      → Goal
  unfolding herdsman
  behind-Inv leave_queue at off above e =
      takes law n s i x q lt inv lock_up leave_queue test_hat (omega arith) at e refl (refl, refl)
        refl tt (inr off)
  behind-Inv on_path at off above e =
      takes law n s i x q lt inv lock_up on_path form_column (omega arith) at e refl (refl, refl)
        refl tt (inr off)
  behind-Inv form_column at off above e = forms at e
  behind-Inv test_wait at off above e = elim (Bool-cases (is_pos 0 s.shared.upwait)) [
    | inl last ↦
        walked law n s i x q lt inv test_wait pass_locked at (rw last at e) refl refl tt (inr off)
    | inr more ↦
        walked law n s i x q lt inv test_wait call_next at (rw more at e) refl refl tt (inr off)
  ]
  behind-Inv call_next at off above e =
      calls law n s i x q lt inv up_queue call_next count_go (omega arith) at e (refl, refl)
        (refl, refl, refl, refl) tt off
  behind-Inv count_go at off above e =
      landed law n s i x q lt inv (record s.shared { upgo = inc s.shared.upgo }) column_formed e
        (kept law n s i x q lt inv count_go at (record s.shared { upgo = inc s.shared.upgo })
          column_formed refl refl refl refl tt
          (beyond n s i lt inv count_go at (record s.shared { upgo = inc s.shared.upgo })
            column_formed off refl))
  behind-Inv column_formed at off above e =
      unlocks law n s i x q lt inv column_formed pass at e refl refl refl tt (inr off)
  behind-Inv pass at off above e =
      takes law n s i x q lt inv lock_up pass count_gone (omega arith) at e refl (refl, refl) refl
        tt (inr off)
  behind-Inv pass_locked at off above e =
      let (less, same, place_same) = took law n s i x q lt inv lock_up count_gone (omega arith) e in
      absurd
        (omega (arith, less lock_up, inv.one_locks, le-total locks n s.place i lt, ap (locks i) at))
  behind-Inv count_gone at off above e =
      landed law n s i x q lt inv (record s.shared { upgo = dec s.shared.upgo }) test_go e
        (kept law n s i x q lt inv count_gone at (record s.shared { upgo = dec s.shared.upgo })
          test_go refl refl refl refl tt
          (beyond n s i lt inv count_gone at (record s.shared { upgo = dec s.shared.upgo }) test_go
            off refl))
  behind-Inv test_go at off above e = elim (Bool-cases (is_pos 0 s.shared.upgo)) [
    | inl all ↦ walked law n s i x q lt inv test_go take_hat at (rw all at e) refl refl tt (inr off)
    | inr more ↦ walked law n s i x q lt inv test_go passed at (rw more at e) refl refl tt (inr off)
  ]
  behind-Inv take_hat at off above e =
      landed law n s i x q lt inv (record s.shared { hat = pos 0 }) open_top e
        (kept law n s i x q lt inv take_hat at (record s.shared { hat = pos 0 }) open_top refl refl
          refl refl tt
          (beyond n s i lt inv take_hat at (record s.shared { hat = pos 0 }) open_top off refl))
  behind-Inv open_top at off above e =
      calls law n s i x q lt inv down open_top passed (omega arith) at e (refl, refl)
        (refl, refl, refl, refl) tt off
  behind-Inv passed at off above e =
      unlocks law n s i x q lt inv passed look_hat at e refl refl refl tt (inr off)
  behind-Inv look_hat at off above e =
      takes law n s i x q lt inv down look_hat come_top (omega arith) at e refl (refl, refl) refl tt
        (inr off)
  behind-Inv come_top at off above e =
      takes law n s i x q lt inv lock_down come_top test_down (omega arith) at e refl (refl, refl)
        refl tt (inr off)
  behind-Inv test_down at off above e =
      let nobody : is_pos 0 s.shared.downgo ≡ true = rw inv.no_down refl in
      walked law n s i x q lt inv test_down block_bottom at (rw nobody at e) refl refl tt (inr off)
  behind-Inv block_bottom at off above e =
      let (less, same, place_same) = took law n s i x q lt inv up count_down (omega arith) e in
      elim inv.phase [
        | inl early ↦ absurd (off (rw at at (early.before i lt)))
        | inr late ↦ absurd (omega (arith, less up))
      ]
  behind-Inv exited at off above e = cc
  behind-Inv come at off above e = absurd (off tt)
  behind-Inv count_wait at off above e = absurd (off tt)
  behind-Inv test_first at off above e = absurd (off tt)
  behind-Inv enter_queue at off above e = absurd (off tt)
  behind-Inv in_queue at off above e = absurd (off tt)
  behind-Inv test_hat at off above e = absurd (off tt)
  behind-Inv leave_herd at off above e = absurd (off tt)
  behind-Inv at_top at off above e = absurd (off tt)
  behind-Inv put_hat at off above e = absurd (off tt)
  behind-Inv hat_put at off above e = absurd (off tt)
  behind-Inv close_top at off above e = absurd (off tt)
  behind-Inv enter_path at off above e = absurd (off tt)
  behind-Inv p at off above e = absurd above
