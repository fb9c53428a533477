-- ===== src/MsgHerdsmen/Meeting.antt =====
-- Herdsmen of msg_task/herdsmans who meet in the bom.
use sem.Prelude.{
  ℕ, zero, suc, ◌+◌, ◌*◌, ◌≤◌, ◌<◌, ◌≡◌, ◌≢◌, refl, arith, true, false, update, ◌==◌, ==_iff,
}
use sem.Process.{State, Reach, run, start, later}
use sem.Messages.{Queue, MsgCall}
use sem.MsgHerdsmen.{Place, arrive, went_away, go_up, go_down, Local, method}
use sem.MsgHerdsmen.Course.{HasRoom, on_course, local, following, message, put, to_send, Goes}
use sem.MsgHerdsmen.Passage.{begin, advance_here, Reach-Inv}

-- His place after so many steps.
abbrev pub course : ℕ → Place
course zero = arrive
course (suc k) = following (course k)

less_to_send : (p : Place) → to_send (following p) ≤ to_send p
less_to_send went_away = omega arith
less_to_send p = omega arith

module _ {room largest : ℕ} {msgsnd : ℕ → MsgCall} (law : HasRoom room largest msgsnd)
    (msgrcv : ℕ → MsgCall) (n : ℕ) (short : n + 8 ≤ largest) (roomy : 4 * n ≤ room) where
  -- The herdsman `i` alone goes `k` steps.
  walk :
      (k i : ℕ) (s : State Queue Local)
      → 1 ≤ to_send (course k)
      → i < n
      → Reach (method msgsnd msgrcv n) n begin s
      → s.place i ≡ local arrive
      → (t : State Queue Local) × Reach (method msgsnd msgrcv n) n begin t
        × (t.place i ≡ local (course k))
        × (on_course (course k) ≡ true)
        × ((j : ℕ) → (i == j) ≡ false → t.place j ≡ s.place j)
  walk zero i s more lt r e = (s, r, e, refl, λ j other. refl)
  walk (suc k) i s more lt r e =
      let enough : 1 ≤ to_send (course k) = omega (arith, less_to_send (course k)) in
      let (t, reached, there, on, others) = walk k i s enough lt r e in
      let move : Goes n t.shared (course k) (method msgsnd msgrcv n i t.shared (t.place i)) =
        advance_here law msgrcv n short roomy t i (course k)
          (Reach-Inv law msgrcv n short roomy t reached) lt there on enough in
      (
        record {
          shared = put t.shared (message n (course k));
          place = update t.place i (local (course (suc k)));
        },
        later reached (run i lt move.turn_is),
        let self : (i == i) ≡ true = (==_iff i i).1 refl in rw self refl,
        move.on,
        λ j other. rw other (others j other),
      )

  -- With that room: for two different herdsmen among `n` there is a run that brings one of them
  -- into the bom on his way up while the other is in it on his way down.
  pub both_ways :
      (i j : ℕ)
      → i < n
      → j < n
      → i ≢ j
      → (s : State Queue Local) × Reach (method msgsnd msgrcv n) n begin s
        × ((s.place i).place ≡ go_up)
        × ((s.place j).place ≡ go_down)
  both_ways i j i_in j_in apart =
      let (t, up, there, on, others) = walk 5 i begin (omega arith) i_in start refl in
      let other : (i == j) ≡ false = ground arith in
      let (s, down, at_down, on_down, others') =
        walk 11 j t (omega arith) j_in up (others j other) in
      let back : (j == i) ≡ false = ground arith in
      (s, down, rw (others' i back, there) refl, rw at_down refl)
