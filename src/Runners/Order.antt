-- ===== src/Runners/Order.antt =====
-- Who runs, and when.
use sem.Prelude.{
  ℕ, zero, suc, ◌<◌, ◌≡◌, refl, arith, total, total-suc, total-zero, total-eq-zero, add-le-total,
  le-total,
}
use sem.Process.{State, Reach, Reach-invariant}
use sem.Messages.{MsgCall, IsMsgQueue}
use sem.Messages.Laws.{count-nil}
use sem.Runners.{
  Place, wait_came, send_start, wait_finish, send_over, judged, run_up, runnr_came, method, begin,
}
use sem.Runners.Invariant.{AtHome, counted, to_come, turn, Inv}
use sem.Runners.Methods.{method-Inv}

-- Of `suc n` processes at their start, all but the judge count.
total-to_come : (n : ℕ) → total to_come (suc n) begin.place ≡ n
total-to_come zero = omega (arith, total-suc to_come 0 begin.place, total-zero to_come begin.place)
total-to_come (suc n) = ground (arith, total-suc to_come (suc n) begin.place, total-to_come n)

total-turn : (k n : ℕ) → total (turn k) (suc n) begin.place ≡ 1
total-turn k zero = omega (arith, total-suc (turn k) 0 begin.place, total-zero (turn k) begin.place)
total-turn k (suc n) = ground (arith, total-suc (turn k) (suc n) begin.place, total-turn k n)

begin-Inv : (n : ℕ) → Inv n begin
begin-Inv n = record {
  home = λ i lt. ground arith;
  came = omega (
    arith,
    count-nil (runnr_came n),
    total-to_come n,
    total-eq-zero (counted n) (suc n) begin.place (λ i lt. ground arith),
  );
  turns = λ k low high. omega (arith, count-nil k, total-turn k n);
  size = omega arith;
}

module _ {room : ℕ} {msgsnd msgrcv : MsgCall} (law : IsMsgQueue room msgsnd msgrcv) (n : ℕ)
    (s : State _ Place) (r : Reach (method msgsnd msgrcv n) (suc n) begin s) where
  pub Reach-Inv : Inv n s
  Reach-Inv =
      Reach-invariant (method msgsnd msgrcv n) (Inv n) (begin-Inv n)
        (λ x i q p lt inv e. method-Inv law n x i q p lt inv e) r

  -- While it is not the judge's turn for `k`, he is waiting for `k` to finish.
  waits_for : (k : ℕ) (p : Place) → AtHome n 0 p → turn (suc k) 0 p ≡ 0 → p ≡ wait_finish k
  waits_for k (wait_finish j) home off = ground arith
  waits_for k (wait_came j) home off = absurd (omega arith)
  waits_for k (send_start j) home off = absurd (omega arith)
  waits_for k (send_over j) home off = absurd (omega arith)
  waits_for k judged home off = absurd (omega arith)
  waits_for k p home off = absurd (omega arith)

  judge_waits : (k : ℕ) → suc k < suc n → s.place (suc k) ≡ run_up → s.place 0 ≡ wait_finish k
  judge_waits k lt at =
      let inv = Reach-Inv in
      let own : turn (suc k) (suc k) (s.place (suc k)) ≡ 1 = rw at (ground arith) in
      waits_for k (s.place 0) (inv.home 0 (omega arith)) (
        omega (
          arith,
          inv.turns (suc k) (omega arith) (omega arith),
          own,
          add-le-total (turn (suc k)) (suc n) s.place 0 (suc k) (omega arith) lt,
        ))

  -- While a runner runs, every runner has come to the start, the judge waits for this one to finish,
  -- and no other runner runs.
  pub one_runs :
      (i j : ℕ)
      → suc i < suc n
      → suc j < suc n
      → s.place (suc i) ≡ run_up
      → s.place (suc j) ≡ run_up
      → (total to_come (suc n) s.place ≡ 0) × (s.place 0 ≡ wait_finish i) × (i ≡ j)
  one_runs i j i_in j_in at_i at_j =
      let inv = Reach-Inv in
      let waits_i = judge_waits i i_in at_i in
      let waits_j = judge_waits j j_in at_j in
      let all : counted n 0 (s.place 0) ≡ n = rw waits_i refl in
      (
        omega (arith, inv.came, all, le-total (counted n) (suc n) s.place 0 (omega arith)),
        waits_i,
        cc,
      )
