-- ===== src/Herdsmen/Safety.antt =====
-- What becomes of the herdsmen.
use sem.Prelude.{
  ℕ, ◌+◌, ◌-◌, ◌^◌, ◌<◌, ◌≡◌, ◌≢◌, refl, arith, ap, total, total-eq-zero, update, ◌==◌,
  if◌then◌else◌, inl, leb,
}
use sem.Prelude.Int.{pos}
use sem.Process.{State, Reach, Reach-invariant}
use sem.Sems.{Values, Semop, IsSemop, next, v_oper, p_oper}
use sem.Sems.Laws.{v_oper_one, p_oper_one}
use sem.Herdsmen.{
  Shared, Place, gone, method, begin, sems_processing, num_of_semaphors, lock_up, lock_down,
  up_queue, up, down,
}
use sem.Herdsmen.Invariant.{locks, counted, leads, hats, IsAbove, Inv}
use sem.Herdsmen.Methods.{method-Inv}

-- The values that the semaphores start with.
abbrev pub first_values : ℕ → ℕ
first_values j = if j == up_queue then 0 else if leb j down then 1 else 0

module _ {semop : Semop} (law : IsSemop num_of_semaphors semop) where
  -- On new semaphores `Sems_processing` leaves one of LOCK_UP, LOCK_DOWN, UP and DOWN each, and none of
  -- UP_QUEUE.
  sems_processing_lem :
      (v : Values) × (sems_processing semop (λ _. 0) ≡ next v) × ((j : ℕ) → v j ≡ first_values j)
  unfolding sems_processing
  sems_processing_lem = (v6, rw (one, two, three, four, five, six) refl, λ j. ground arith)
    where
      v1 : Values
      v1 = update (λ _. 0) lock_up (0 + 1)

      v2 : Values
      v2 = update v1 lock_down (v1 lock_down + 1)

      v3 : Values
      v3 = update v2 up_queue (v2 up_queue + 1)

      v4 : Values
      v4 = update v3 up_queue (v3 up_queue - 1)

      v5 : Values
      v5 = update v4 up (v4 up + 1)

      v6 : Values
      v6 = update v5 down (v5 down + 1)

      one : v_oper semop (λ _. 0) lock_up (pos 1) ≡ next v1
      one = v_oper_one law (λ _. 0) lock_up (omega arith) (omega arith)

      two : v_oper semop v1 lock_down (pos 1) ≡ next v2
      two = v_oper_one law v1 lock_down (omega arith) (omega arith)

      three : v_oper semop v2 up_queue (pos 1) ≡ next v3
      three = v_oper_one law v2 up_queue (omega arith) (omega arith)

      four : p_oper semop v3 up_queue (pos 1) ≡ next v4
      four = p_oper_one law v3 up_queue (omega arith) (omega arith)

      five : v_oper semop v4 up (pos 1) ≡ next v5
      five = v_oper_one law v4 up (omega arith) (omega arith)

      six : v_oper semop v5 down (pos 1) ≡ next v6
      six = v_oper_one law v5 down (omega arith) (omega arith)

  module _ (v : Values) (ready : sems_processing semop (λ _. 0) ≡ next v) (n : ℕ)
      (few : n + 1 < 2 ^ 31) (s : State Shared Place) (r : Reach (method semop) n (begin v) s) where
    prepared : (j : ℕ) → v j ≡ first_values j
    prepared =
        let (w, e, h) = sems_processing_lem in
        let same : v ≡ w = ground (arith, ready, e) in rw same h

    begin-Inv : Inv n (begin v)
    begin-Inv = record {
      few = few;
      one_locks =
          omega (arith, prepared lock_up, total-eq-zero locks n (begin v).place (λ i lt. refl));
      waiting = ap pos (omega (arith, total-eq-zero counted n (begin v).place (λ i lt. refl)));
      no_down = refl;
      above = λ i lt. tt;
      phase = inl (record {
        free = prepared up;
        no_call = prepared up_queue;
        one_leads = omega (arith, total-eq-zero leads n (begin v).place (λ i lt. refl));
        hat_down = ap pos (omega (arith, total-eq-zero hats n (begin v).place (λ i lt. refl)));
        before = λ i lt. tt;
      });
    }

    Reach-Inv : Inv n s
    Reach-Inv =
        Reach-invariant (method semop) (Inv n) begin-Inv
          (λ x i y q lt inv e. method-Inv law n x i y q lt inv e) r

    above-ne-gone : (p : Place) → IsAbove p → p ≢ gone
    above-ne-gone p above e = absurd (rw e at above)

    -- With semaphores that `Sems_processing` has set up and fewer than 2^31 - 1 herdsmen: in no state has
    -- a herdsman come to his end, whatever the order of their steps, though no more than one is ever
    -- behind LOCK_UP.
    pub nobody_goes :
        (i : ℕ) → i < n → (s.place i ≢ gone) × (s.shared.sems lock_up + total locks n s.place ≡ 1)
    nobody_goes i lt =
        let inv = Reach-Inv in (above-ne-gone (s.place i) (inv.above i lt), inv.one_locks)
