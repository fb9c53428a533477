-- ===== src/Runners/Ends.antt =====
-- Every run of the judge and the runners ends.
use sem.Prelude.{
  ℕ, suc, ◌+◌, ◌-◌, ◌*◌, ◌<◌, ◌≤◌, ◌≡◌, arith, some, le-total-first, ◌==◌, if◌then◌else◌,
  Bool-cases, inl, inr, ltb,
}
use sem.Process.{State, Reach, steps, steps-bound}
use sem.Messages.{Queue, MsgCall, MsgResult, success, sleeps, failure, IsMsgQueue}
use sem.Runners.{
  Place, wait_came, send_start, wait_finish, send_over, judged, come, wait_start, run_up, wait_over,
  went_away, exited, method, begin, judge, runner, resume, Turn,
}
use sem.Runners.Invariant.{AtHome, sent, Inv}
use sem.Runners.Order.{Reach-Inv}

pub sent-le : (n i : ℕ) (p : Place) → AtHome n i p → sent n i p ≤ (if i == 0 then 2 * n else 2)
sent-le n i (wait_came k) home = omega arith
sent-le n i (send_start k) home = ground arith
sent-le n i (wait_finish k) home = ground arith
sent-le n i (send_over k) home = ground arith
sent-le n i judged home = ground arith
sent-le n i exited home = absurd home
sent-le n i p home = ground arith

-- At most so many steps are ahead of a process.
abbrev pub work : ℕ → ℕ → Place → ℕ
work n i (wait_came k) = n - k + 3 * n + 3
work n i (send_start k) = 2 * (n - k) + n + 2
work n i (wait_finish k) = 2 * (n - k) + n + 1
work n i (send_over k) = n - k + 1
work n i judged = 0
work n i come = 4
work n i wait_start = 3
work n i run_up = 2
work n i wait_over = 1
work n i p = 0

resumed :
    (n i w : ℕ) (q r : Queue) (m : MsgResult) (a b : Place)
    → resume q m a ≡ some (r, b)
    → work n i a < w
    → work n i b < w
resumed n i w q r (success x) a b e less = let same : a ≡ b = ground arith in rw (← same) less
resumed n i w q r sleeps a b e less = cc
resumed n i w q r failure a b e less =
    let same : exited ≡ b = ground arith in rw (← same) (omega arith)

moved :
    (n i w : ℕ) (q r : Queue) (a b : Place)
    → ◌≡◌ {A = Turn} (some (q, a)) (some (r, b))
    → work n i a < w
    → work n i b < w
moved n i w q r a b e less = let same : a ≡ b = ground arith in rw (← same) less

module _ (msgsnd msgrcv : MsgCall) (n i : ℕ) (q r : Queue) (b : Place) where
  judge-work :
      (p : Place) → AtHome n i p → judge msgsnd msgrcv n q p ≡ some (r, b) → work n i b < work n i p
  unfolding judge
  judge-work (wait_came k) home e = elim (Bool-cases (ltb k n)) [
    | inl more ↦ resumed n i _ q r _ (wait_came (k + 1)) b (rw more at e) (ground arith)
    | inr all ↦ moved n i _ q r (send_start 0) b (rw all at e) (omega arith)
  ]
  judge-work (send_start k) home e = elim (Bool-cases (ltb k n)) [
    | inl more ↦ resumed n i _ q r _ (wait_finish k) b (rw more at e) (omega arith)
    | inr all ↦ moved n i _ q r (send_over 0) b (rw all at e) (omega arith)
  ]
  judge-work (wait_finish k) home e = resumed n i _ q r _ (send_start (k + 1)) b e (omega arith)
  judge-work (send_over k) home e = elim (Bool-cases (ltb k n)) [
    | inl more ↦ resumed n i _ q r _ (send_over (k + 1)) b (rw more at e) (ground arith)
    | inr all ↦ moved n i _ q r judged b (rw all at e) (omega arith)
  ]
  judge-work p home e = cc

  runner-work : (p : Place) → runner msgsnd msgrcv n i q p ≡ some (r, b) → work n i b < work n i p
  unfolding runner
  runner-work come e = resumed n i _ q r _ wait_start b e (omega arith)
  runner-work wait_start e = resumed n i _ q r _ run_up b e (omega arith)
  runner-work run_up e = resumed n i _ q r _ wait_over b e (omega arith)
  runner-work wait_over e = resumed n i _ q r _ went_away b e (omega arith)
  runner-work p e = cc

  method-work :
      (p : Place)
      → AtHome n i p
      → method msgsnd msgrcv n i q p ≡ some (r, b)
      → work n i b < work n i p
  method-work p home e = elim (Bool-cases (i == 0)) [
    | inl zeroth ↦ judge-work p home (rw zeroth at e)
    | inr other ↦ runner-work p (rw other at e)
  ]

module _ {room : ℕ} {msgsnd msgrcv : MsgCall} (law : IsMsgQueue room msgsnd msgrcv) (n : ℕ)
    (s : State Queue Place) (r : Reach (method msgsnd msgrcv n) (suc n) begin s) where
  -- A run of the judge and `n` runners has at most 8 n + 3 steps.
  pub runners_end : steps (method msgsnd msgrcv n) r ≤ 8 * n + 3
  runners_end = omega (
    arith,
    le-total-first (work n) begin.place (4 * n + 3) 4 n (omega arith) (λ i lt. ground arith) n
        (omega arith),
    steps-bound (method msgsnd msgrcv n) (Inv n) (work n) (λ x run. Reach-Inv law n x run)
        (λ x i q p lt inv e.
          method-work msgsnd msgrcv n i x.shared q p (x.place i) (inv.home i lt) e)
        r,
  )
