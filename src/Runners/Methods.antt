-- ===== src/Runners/Methods.antt =====
-- Every step of the judge and of a runner keeps the invariant.
use sem.Prelude.{
  ℕ, suc, ◌+◌, ◌<◌, ◌≤◌, ◌≡◌, refl, arith, none, some, update, length, length-append, ltb, ◌==◌,
  Bool-cases, inl, inr, ◌++◌, [], ◌∷◌, dec_lt,
}
use sem.Process.{State}
use sem.Messages.{Queue, MsgCall, IsMsgQueue}
use sem.Messages.Laws.{one_of, count-send, take_first-cases}
use sem.Runners.{
  Place, wait_came, send_start, wait_finish, send_over, judged, come, wait_start, run_up, wait_over,
  went_away, Turn, resume, judge, runner, method, runnr_came, run_is_ovr,
}
use sem.Runners.Invariant.{AtHome, counted, sent, to_come, turn, Inv, Kept, step-Inv}

module _ {room : ℕ} {msgsnd msgrcv : MsgCall} (law : IsMsgQueue room msgsnd msgrcv) (n : ℕ)
    (s : State Queue Place) (i : ℕ) (r : Queue) (q : Place) (lt : i < suc n) (inv : Inv n s) where
  abbrev Target : Type 0
  Target = Inv n (record { shared = r; place = update s.place i q })

  -- The numbers of messages that a step from `p` to `p'` adds and takes, of the types that count.
  abbrev Balance : Place → Place → (ℕ → ℕ) → (ℕ → ℕ) → Type 0
  Balance p p' adds takes =
      (adds (runnr_came n) + counted n i p' + to_come i p'
        ≡ takes (runnr_came n) + counted n i p + to_come i p)
      × ((k : ℕ) → 1 ≤ k → k ≤ n → adds k + turn k i p' ≡ takes k + turn k i p)

  landed :
      (x : Queue) (p p' : Place) (at : s.place i ≡ p)
      → ◌≡◌ {A = Turn} (some (x, p')) (some (r, q))
      → Kept n s i lt inv p at x p'
      → Target
  landed x p p' at e kept =
      let er : x ≡ r = ground arith in
      let eq : p' ≡ q = ground arith in rw (← er, ← eq) (step-Inv n s i lt inv p at x p' kept)

  walked :
      (p p' : Place) (at : s.place i ≡ p)
      → ◌≡◌ {A = Turn} (some (s.shared, p')) (some (r, q))
      → AtHome n i p'
      → Balance p p' (λ _. 0) (λ _. 0)
      → sent n i p ≤ sent n i p'
      → Target
  walked p p' at e home (came, turns) more = landed s.shared p p' at e (record {
    at_home = home;
    same_came = omega arith;
    same_turn = λ k low high. omega (arith, turns k low high);
    fits = omega arith;
  })

  sends :
      (t : ℕ) (p p' : Place) (at : s.place i ≡ p)
      → 1 ≤ t
      → resume s.shared (msgsnd s.shared t) p' ≡ some (r, q)
      → AtHome n i p'
      → Balance p p' (one_of t) (λ _. 0)
      → sent n i p + 1 ≤ sent n i p'
      → Target
  sends t p p' at some_type e home (came, turns) more = elim (dec_lt (length s.shared) room) [
    | yes free ↦
        landed (s.shared ++ (t ∷ [])) p p' at (rw (law.sends s.shared t some_type free) at e)
          (record {
            at_home = home;
            same_came = omega (arith, count-send (runnr_came n) t s.shared);
            same_turn = λ k low high. omega (arith, turns k low high, count-send k t s.shared);
            fits = omega (arith, length-append s.shared (t ∷ []));
          })
    | no full ↦
        let nothing : ◌≡◌ {A = Turn} none (some (r, q)) =
          rw (law.full_sleeps s.shared t some_type (omega arith)) at e in
        cc
  ]

  receives :
      (t : ℕ) (p p' : Place) (at : s.place i ≡ p)
      → 1 ≤ t
      → resume s.shared (msgrcv s.shared t) p' ≡ some (r, q)
      → AtHome n i p'
      → Balance p p' (λ _. 0) (one_of t)
      → sent n i p ≤ sent n i p' + 1
      → Target
  receives t p p' at some_type e home (came, turns) more = elim (take_first-cases t s.shared) [
    | inl (absent, empty) ↦
        let nothing : ◌≡◌ {A = Turn} none (some (r, q)) =
          rw (law.receives s.shared t some_type, absent) at e in
        cc
    | inr (x, found, size, sums) ↦
        landed x p p' at (rw (law.receives s.shared t some_type, found) at e) (record {
          at_home = home;
          same_came = omega (arith, sums (runnr_came n));
          same_turn = λ k low high. omega (arith, turns k low high, sums k);
          fits = omega arith;
        })
  ]

  judge-Inv :
      (p : Place)
      → s.place i ≡ p
      → AtHome n i p
      → judge msgsnd msgrcv n s.shared p ≡ some (r, q)
      → Target
  unfolding judge
  judge-Inv (wait_came k) at home e = elim (Bool-cases (ltb k n)) [
    | inl more ↦
        receives (runnr_came n) (wait_came k) (wait_came (k + 1)) at (omega arith) (rw more at e)
          (ground arith) (ground arith, λ j low high. ground arith) (omega arith)
    | inr all ↦
        walked (wait_came k) (send_start 0) at (rw all at e) (ground arith)
          (ground arith, λ j low high. ground arith) (omega arith)
  ]
  judge-Inv (send_start k) at home e = elim (Bool-cases (ltb k n)) [
    | inl more ↦
        sends (k + 1) (send_start k) (wait_finish k) at (omega arith) (rw more at e) (ground arith)
          (ground arith, λ j low high. ground arith) (omega arith)
    | inr all ↦
        walked (send_start k) (send_over 0) at (rw all at e) (ground arith)
          (ground arith, λ j low high. ground arith) (omega arith)
  ]
  judge-Inv (wait_finish k) at home e =
      receives (k + 1) (wait_finish k) (send_start (k + 1)) at (omega arith) e (omega arith)
        (ground arith, λ j low high. ground arith) (omega arith)
  judge-Inv (send_over k) at home e = elim (Bool-cases (ltb k n)) [
    | inl more ↦
        sends (run_is_ovr n) (send_over k) (send_over (k + 1)) at (omega arith) (rw more at e)
          (ground arith) (ground arith, λ j low high. ground arith) (omega arith)
    | inr all ↦
        walked (send_over k) judged at (rw all at e) (omega arith)
          (ground arith, λ j low high. ground arith) (omega arith)
  ]
  judge-Inv p at home e = cc

  runner-Inv :
      (p : Place)
      → s.place i ≡ p
      → AtHome n i p
      → runner msgsnd msgrcv n i s.shared p ≡ some (r, q)
      → 0 < i
      → Target
  unfolding runner
  runner-Inv come at home e own =
      sends (runnr_came n) come wait_start at (omega arith) e own
        (ground arith, λ j low high. ground arith) (omega arith)
  runner-Inv wait_start at home e own =
      receives i wait_start run_up at own e own (ground arith, λ j low high. ground arith)
        (omega arith)
  runner-Inv run_up at home e own =
      sends i run_up wait_over at own e own (ground arith, λ j low high. ground arith) (omega arith)
  runner-Inv wait_over at home e own =
      receives (run_is_ovr n) wait_over went_away at (omega arith) e own
        (ground arith, λ j low high. ground arith) (omega arith)
  runner-Inv p at home e own = cc

pub method-Inv :
    {room : ℕ} {msgsnd msgrcv : MsgCall}
    → IsMsgQueue room msgsnd msgrcv
    → (n : ℕ) (s : State Queue Place) (i : ℕ) (r : Queue) (q : Place) → i < suc n
    → Inv n s
    → method msgsnd msgrcv n i s.shared (s.place i) ≡ some (r, q)
    → Inv n (record { shared = r; place = update s.place i q })
method-Inv law n s i r q lt inv e = elim (Bool-cases (i == 0)) [
  | inl zeroth ↦ judge-Inv law n s i r q lt inv (s.place i) refl (inv.home i lt) (rw zeroth at e)
  | inr other ↦
      runner-Inv law n s i r q lt inv (s.place i) refl (inv.home i lt) (rw other at e)
        (ground arith)
]
