-- ===== src/Runners/Race.antt =====
-- The judge can receive the very message by which he tells a runner to start.
use sem.Prelude.{
  ℕ, zero, suc, ◌+◌, ◌-◌, ◌<◌, ◌≤◌, ◌≡◌, refl, arith, ap, ◌∙◌, some, total, total-suc, total-zero,
  update, ◌==◌, if◌then◌else◌, ltb, lt→ltb, true, false, length, [], ◌∷◌, ◌++◌, subst,
}
use sem.Process.{State, Reach, start, later, run}
use sem.Messages.{Queue, MsgCall, IsMsgQueue, take_first, received}
use sem.Runners.{
  Place, wait_came, send_start, wait_finish, send_over, judged, come, wait_start, runnr_came,
  run_is_ovr, method, begin, judge, runner, resume,
}

abbrev pub replicate : ℕ → ℕ → Queue
replicate zero m = []
replicate (suc k) m = m ∷ replicate k m

replicate_snoc : (k m : ℕ) → replicate k m ++ (m ∷ []) ≡ replicate (suc k) m
replicate_snoc zero m = refl
replicate_snoc (suc k) m = ap (λ q. m ∷ q) (replicate_snoc k m)

length-replicate : (k m : ℕ) → length (replicate k m) ≡ k
length-replicate zero m = refl
length-replicate (suc k) m = ap suc (length-replicate k m)

-- Waits for his start.
abbrev pub at_start : ℕ → Place → ℕ
at_start i wait_start = 1
at_start i p = 0

module _ {room : ℕ} {msgsnd msgrcv : MsgCall} (law : IsMsgQueue room msgsnd msgrcv) (n : ℕ)
    (large : n < room) where
  -- The first `k` runners have come, none has run, and the judge is at `p`.
  record Lined (q : Queue) (p : Place) (k : ℕ) : Type 0 where
    pub state : State Queue Place
    pub reached : Reach (method msgsnd msgrcv n) (suc n) begin state
    pub queue : state.shared ≡ q
    pub judge_at : state.place 0 ≡ p
    pub runners_at : (i : ℕ) → state.place (suc i) ≡ (if ltb i k then wait_start else come)

  at_first : Lined [] (wait_came 0) 0
  at_first = record {
    state = begin;
    reached = start;
    queue = refl;
    judge_at = refl;
    runners_at = λ i. ground arith;
  }

  -- A step of the judge.
  judge_step :
      {q q' : Queue} {p p' : Place} {k : ℕ}
      → Lined q p k
      → judge msgsnd msgrcv n q p ≡ some (q', p')
      → Lined q' p' k
  judge_step {q} {q'} {p} {p'} {k} l e = record {
    state = record { shared = q'; place = update l.state.place 0 p' };
    reached = later l.reached (run 0 (omega arith) (rw (l.queue, l.judge_at) e));
    queue = refl;
    judge_at = refl;
    runners_at = λ i. rw (← l.runners_at i) (ground arith);
  }

  sent_next :
      (q : Queue) (t : ℕ) (p : Place)
      → 1 ≤ t
      → length q < room
      → resume q (msgsnd q t) p ≡ some (q ++ (t ∷ []), p)
  sent_next q t p some_type free = ap (λ m. resume q m p) (law.sends q t some_type free)

  took_next :
      (q : Queue) (t : ℕ) (p : Place) → 1 ≤ t → resume (t ∷ q) (msgrcv (t ∷ q) t) p ≡ some (q, p)
  unfolding take_first
  took_next q t p some_type =
      let here : take_first t (t ∷ q) ≡ some q = ground arith in
      ap (λ m. resume (t ∷ q) m p) (law.receives (t ∷ q) t some_type ∙ ap received here)

  arrivals : (k : ℕ) → k ≤ n → Lined (replicate k (runnr_came n)) (wait_came 0) k
  unfolding runner
  arrivals zero low = at_first
  arrivals (suc k) low =
      let l = arrivals k (omega arith) in
      let free : length (replicate k (runnr_came n)) < room =
        omega (arith, length-replicate k (runnr_came n)) in
      let here : l.state.place (suc k) ≡ come = l.runners_at k ∙ ground arith in
      let own : (suc k == 0) ≡ false = ground arith in
      let next : method msgsnd msgrcv n (suc k) (replicate k (runnr_came n)) come
          ≡ some (replicate (suc k) (runnr_came n), wait_start) =
        rw own (
          sent_next (replicate k (runnr_came n)) (runnr_came n) wait_start (omega arith) free
          ∙ ap (λ q. some (q, wait_start)) (replicate_snoc k (runnr_came n))) in
      record {
        state = record {
          shared = replicate (suc k) (runnr_came n);
          place = update l.state.place (suc k) wait_start;
        };
        reached = later l.reached (run (suc k) (omega arith) (rw (l.queue, here) next));
        queue = refl;
        judge_at = ground (arith, l.judge_at);
        runners_at = λ i. ground (arith, l.runners_at i);
      }

  counting : (k : ℕ) → k ≤ n → Lined (replicate (n - k) (runnr_came n)) (wait_came k) n
  unfolding judge
  counting zero low =
      subst (λ j. Lined (replicate j (runnr_came n)) (wait_came 0) n) (omega arith)
        (arrivals n (omega arith))
  counting (suc k) low =
      let left : n - k ≡ suc (n - suc k) = omega arith in
      let more : ltb k n ≡ true = lt→ltb k n low in
      let next : k + 1 ≡ suc k = omega arith in
      judge_step
        (subst (λ j. Lined (replicate j (runnr_came n)) (wait_came k) n) left
          (counting k (omega arith)))
        (rw (more, next)
          (took_next (replicate (n - suc k) (runnr_came n)) (runnr_came n) (wait_came (suc k))
            (omega arith)))

  -- The judge sends each message to start, and receives it himself.
  starting : (k : ℕ) → k ≤ n → Lined [] (send_start k) n
  unfolding judge
  starting zero low =
      let none_left : n - n ≡ 0 = omega arith in
      let all : ltb n n ≡ false = ground arith in
      judge_step
        (subst (λ j. Lined (replicate j (runnr_came n)) (wait_came n) n) none_left
          (counting n (omega arith)))
        (rw all refl)
  starting (suc k) low =
      let more : ltb k n ≡ true = lt→ltb k n low in
      let next : k + 1 ≡ suc k = omega arith in
      let told : judge msgsnd msgrcv n [] (send_start k) ≡ some ((k + 1) ∷ [], wait_finish k) =
        rw more (sent_next [] (k + 1) (wait_finish k) (omega arith) (omega arith)) in
      judge_step (judge_step (starting k (omega arith)) told)
        (rw next (took_next [] (suc k) (send_start (suc k)) (omega arith)))

  ending : (k : ℕ) → k ≤ n → Lined (replicate k (run_is_ovr n)) (send_over k) n
  unfolding judge
  ending zero low =
      let all : ltb n n ≡ false = ground arith in
      judge_step (starting n (omega arith)) (rw all refl)
  ending (suc k) low =
      let more : ltb k n ≡ true = lt→ltb k n low in
      let next : k + 1 ≡ suc k = omega arith in
      judge_step (ending k (omega arith)) (
        rw (more, next)
          (sent_next (replicate k (run_is_ovr n)) (run_is_ovr n) (send_over (suc k)) (omega arith)
              (omega (arith, length-replicate k (run_is_ovr n)))
            ∙ ap (λ q. some (q, send_over (suc k))) (replicate_snoc k (run_is_ovr n))))

  over : Lined (replicate n (run_is_ovr n)) judged n
  unfolding judge
  over =
      let all : ltb n n ≡ false = ground arith in judge_step (ending n (omega arith)) (rw all refl)

  total-at_start :
      (l : Lined (replicate n (run_is_ovr n)) judged n) (k : ℕ)
      → k ≤ n
      → total at_start (suc k) l.state.place ≡ k
  total-at_start l zero low = omega (
    arith,
    total-suc at_start 0 l.state.place,
    total-zero at_start l.state.place,
    ap (at_start 0) l.judge_at,
  )
  total-at_start l (suc k) low =
      let here : l.state.place (suc k) ≡ wait_start = l.runners_at k ∙ ground arith in
      omega (
        arith,
        total-suc at_start (suc k) l.state.place,
        total-at_start l k (omega arith),
        ap (at_start (suc k)) here,
      )

  -- With room for the messages of all, there is an order of the steps in which the judge receives his
  -- own messages to start: he comes to his end, all `n` runners still wait for their start, and the
  -- queue holds `n` times RUN_IS_OVR, nothing that lets one of them run.
  pub nobody_runs :
      (s : State Queue Place) × Reach (method msgsnd msgrcv n) (suc n) begin s
      × (s.place 0 ≡ judged)
      × (total at_start (suc n) s.place ≡ n)
      × (s.shared ≡ replicate n (run_is_ovr n))
  nobody_runs =
      let l = over in (l.state, l.reached, l.judge_at, total-at_start l n (omega arith), l.queue)
