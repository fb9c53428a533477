-- ===== src/Runners/Progress.antt =====
-- The judge comes to his end: while he has not, a process can go on.
use sem.Prelude.{
  ==_iff, ltb→lt, false, sym, ◌∙◌, ℕ, suc, ◌+◌, ◌*◌, ◌<◌, ◌≤◌, ◌≡◌, ◌≢◌, refl, arith, ap, some,
  le-total-first, total-pos, ◌==◌, Bool-cases, inl, inr, ltb, dec_lt, length,
}
use sem.Process.{State, Reach}
use sem.Messages.{Queue, MsgCall, IsMsgQueue, received, count}
use sem.Messages.Laws.{take_first-cases}
use sem.Runners.{
  Place, wait_came, send_start, wait_finish, send_over, judged, come, wait_start, run_up, wait_over,
  exited, runnr_came, run_is_ovr, method, begin, judge, runner, resume, Turn,
}
use sem.Runners.Invariant.{AtHome, counted, sent, to_come, turn}
use sem.Runners.Order.{Reach-Inv}
use sem.Runners.Ends.{sent-le}

counted-le : (n i : ℕ) (p : Place) → AtHome n (suc i) p → counted n (suc i) p ≤ 0
counted-le n i (wait_came k) home = absurd (omega arith)
counted-le n i (send_start k) home = absurd (omega arith)
counted-le n i (wait_finish k) home = absurd (omega arith)
counted-le n i (send_over k) home = absurd (omega arith)
counted-le n i judged home = absurd (omega arith)
counted-le n i p home = omega arith

off_turn : (i k : ℕ) (p : Place) → p ≡ wait_finish k → turn (suc k) i p ≡ 0
off_turn i k p e = rw e (ground arith)

module _ {room : ℕ} {msgsnd msgrcv : MsgCall} (law : IsMsgQueue room msgsnd msgrcv) (n : ℕ)
    (s : State Queue Place) (r : Reach (method msgsnd msgrcv n) (suc n) begin s) where
  abbrev pub Mover : Type 0
  Mover =
      (i : ℕ) × (i < suc n)
      × ((t : Queue × Place) × (method msgsnd msgrcv n i s.shared (s.place i) ≡ some t))

  room_left : 4 * n < room → length s.shared < room
  room_left large =
      let inv = Reach-Inv law n s r in
      omega (
        arith,
        inv.size,
        le-total-first (sent n) s.place (2 * n) 2 n
            (sent-le n 0 (s.place 0) (inv.home 0 (omega arith)))
            (λ i lt.
              ground (arith, sent-le n (suc i) (s.place (suc i)) (inv.home (suc i) (omega arith))))
            n (omega arith),
      )

  abbrev Result : Turn → Type 0
  Result m = (t : Queue × Place) × (m ≡ some t)

  can_send :
      (t : ℕ) (p : Place) → 4 * n < room → 1 ≤ t → Result (resume s.shared (msgsnd s.shared t) p)
  can_send t p large some_type =
      (_, ap (λ m. resume s.shared m p) (law.sends s.shared t some_type (room_left large)))

  can_receive :
      (t : ℕ) (p : Place)
      → 0 < count t s.shared
      → 1 ≤ t
      → Result (resume s.shared (msgrcv s.shared t) p)
  can_receive t p there some_type = elim (take_first-cases t s.shared) [
    | inl (absent, empty) ↦ absurd (omega (arith, empty))
    | inr (x, found, size, sums) ↦
        let took : msgrcv s.shared t ≡ received (some x) =
          rw (law.receives s.shared t some_type, found) refl in
        (_, ap (λ m. resume s.shared m p) took)
  ]

  as_judge :
      (i : ℕ) (p : Place)
      → i ≡ 0
      → Result (judge msgsnd msgrcv n s.shared p)
      → Result (method msgsnd msgrcv n i s.shared p)
  as_judge i p zeroth m = rw ((==_iff i 0).1 zeroth) m

  as_runner :
      (i : ℕ) (p : Place)
      → 0 < i
      → Result (runner msgsnd msgrcv n i s.shared p)
      → Result (method msgsnd msgrcv n i s.shared p)
  as_runner i p other m = let e : (i == 0) ≡ false = ground arith in rw e m

  -- A runner who has yet to come can come, and one who runs can finish.
  comes :
      (i : ℕ) (p : Place)
      → 4 * n < room
      → AtHome n i p
      → 0 < to_come i p
      → Result (method msgsnd msgrcv n i s.shared p)
  unfolding runner
  comes i come large home one =
      as_runner i come home (can_send (runnr_came n) wait_start large (omega arith))
  comes i p large home one = absurd (omega arith)

  silent :
      {A : Type 0} (i k : ℕ) (p : Place)
      → i ≡ 0
      → s.place 0 ≡ wait_finish k
      → s.place i ≡ p
      → 0 < turn (suc k) i p
      → A
  silent i k p zeroth waits at one =
      let same : p ≡ wait_finish k = sym at ∙ ap s.place zeroth ∙ waits in
      absurd (omega (arith, off_turn i k p same))

  finishes :
      (i k : ℕ) (p : Place)
      → 4 * n < room
      → AtHome n i p
      → s.place 0 ≡ wait_finish k
      → s.place i ≡ p
      → 0 < turn (suc k) i p
      → Result (method msgsnd msgrcv n i s.shared p)
  unfolding runner
  finishes i k run_up large home waits at one =
      as_runner i run_up home (can_send i wait_over large home)
  finishes i k (wait_came j) large home waits at one = silent i k (wait_came j) home.0 waits at one
  finishes i k (send_start j) large home waits at one =
      silent i k (send_start j) home.0 waits at one
  finishes i k (wait_finish j) large home waits at one =
      silent i k (wait_finish j) home.0 waits at one
  finishes i k (send_over j) large home waits at one = silent i k (send_over j) home.0 waits at one
  finishes i k judged large home waits at one = silent i k judged home waits at one
  finishes i k p large home waits at one = absurd (omega arith)

  judge_moves : (p : Place) → 4 * n < room → s.place 0 ≡ p → AtHome n 0 p → p ≢ judged → Mover
  unfolding judge
  judge_moves (wait_came k) large at home unfinished = elim (Bool-cases (ltb k n)) [
    | inl more ↦ elim (dec_lt 0 (count (runnr_came n) s.shared)) [
      | yes there ↦ (
        0,
        omega arith,
        rw (at, more) (can_receive (runnr_came n) (wait_came (k + 1)) there (omega arith)),
      )
      | no empty ↦
          let (i, lt, one) = total-pos to_come (suc n) s.place (
            omega (
              arith,
              (Reach-Inv law n s r).came,
              ap (counted n 0) at,
              ltb→lt k n more,
              le-total-first (counted n) s.place k 0 n (rw at (omega arith))
                  (λ j j_in.
                    counted-le n j (s.place (suc j))
                      ((Reach-Inv law n s r).home (suc j) (omega arith)))
                  n (omega arith),
            )) in
          (i, lt, comes i (s.place i) large ((Reach-Inv law n s r).home i lt) one)
    ]
    | inr all ↦ (0, omega arith, rw (at, all) (_, refl))
  ]
  judge_moves (send_start k) large at home unfinished = elim (Bool-cases (ltb k n)) [
    | inl more ↦
        (0, omega arith, rw (at, more) (can_send (k + 1) (wait_finish k) large (omega arith)))
    | inr all ↦ (0, omega arith, rw (at, all) (_, refl))
  ]
  judge_moves (wait_finish k) large at home unfinished = elim (dec_lt 0 (count (suc k) s.shared)) [
    | yes there ↦ (
      0,
      omega arith,
      rw at (can_receive (k + 1) (send_start (k + 1)) (ground arith) (omega arith)),
    )
    | no empty ↦
        let (i, lt, one) =
          total-pos (turn (suc k)) (suc n) s.place
            (omega (arith, (Reach-Inv law n s r).turns (suc k) (omega arith) (omega arith))) in
        (i, lt, finishes i k (s.place i) large ((Reach-Inv law n s r).home i lt) at refl one)
  ]
  judge_moves (send_over k) large at home unfinished = elim (Bool-cases (ltb k n)) [
    | inl more ↦ (
      0,
      omega arith,
      rw (at, more) (can_send (run_is_ovr n) (send_over (k + 1)) large (omega arith)),
    )
    | inr all ↦ (0, omega arith, rw (at, all) (_, refl))
  ]
  judge_moves judged large at home unfinished = absurd (unfinished refl)
  judge_moves exited large at home unfinished = absurd home
  judge_moves p large at home unfinished = absurd (omega arith)

  -- With room for more than 4 n messages: while the judge has not ended, there is a process that can
  -- take a step, so that he is not kept waiting for ever.
  pub judge_unfinished_progress : 4 * n < room → s.place 0 ≢ judged → Mover
  judge_unfinished_progress large unfinished =
      judge_moves (s.place 0) large refl ((Reach-Inv law n s r).home 0 (omega arith)) unfinished
