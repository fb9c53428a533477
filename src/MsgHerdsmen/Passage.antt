-- ===== src/MsgHerdsmen/Passage.antt =====
-- The herdsmen of msg_task/herdsmans do not wait for each other.
use sem.Prelude.{
  ℕ, zero, suc, ◌+◌, ◌*◌, ◌≤◌, ◌<◌, ◌≡◌, ◌≢◌, ◌⊎◌, refl, sym, subst, dec_lt, ◌∙◌, arith, ap, true,
  none, some, [], length, update, update_all, total, total-update, total-zero, total-suc, le-total,
  inl, inr,
}
use sem.Process.{State, Reach, Reach-invariant}
use sem.Messages.{Queue, MsgCall}
use sem.MsgHerdsmen.{Place, arrive, went_away, Local, herdsman, method, Turn}
use sem.MsgHerdsmen.Course.{
  HasRoom, on_course, local, following, message, put, to_send, Goes, advance,
}

-- `main`: the queue is new, and so is every child.
abbrev pub begin : State Queue Local
begin = record { shared = []; place = λ i. local arrive }

abbrev pub unsent : ℕ → Local → ℕ
unsent i l = to_send l.place

-- A process stands on the course.
abbrev pub Walks : ℕ → Local → Type 0
Walks i l = (p : Place) × (l ≡ local p) × (on_course p ≡ true)

pub record Inv (n : ℕ) (s : State Queue Local) : Type 0 where
  pub home : (i : ℕ) → i < n → Walks i (s.place i)
  pub sums : length s.shared + total unsent n s.place ≡ 4 * n

total-begin : (n : ℕ) → total unsent n begin.place ≡ 4 * n
total-begin zero = total-zero unsent begin.place
total-begin (suc n) = omega (arith, total-suc unsent n begin.place, total-begin n)

to_send-zero : (p : Place) → on_course p ≡ true → to_send p ≡ 0 → p ≡ went_away
to_send-zero went_away on e = refl
to_send-zero p on e = absurd (omega (arith, e))

module _ {room largest : ℕ} {msgsnd : ℕ → MsgCall} (law : HasRoom room largest msgsnd)
    (msgrcv : ℕ → MsgCall) (n : ℕ) (short : n + 8 ≤ largest) (roomy : 4 * n ≤ room) where
  pub advance_here :
      (s : State Queue Local) (i : ℕ) (p : Place)
      → Inv n s
      → i < n
      → s.place i ≡ local p
      → on_course p ≡ true
      → 1 ≤ to_send p
      → Goes n s.shared p (method msgsnd msgrcv n i s.shared (s.place i))
  advance_here s i p inv lt e on more =
      let part : unsent i (s.place i) ≤ total unsent n s.place = le-total unsent n s.place i lt in
      let part' : to_send p ≤ total unsent n s.place = rw e at part in
      rw e (advance law msgrcv n (i + 1) short s.shared (omega (arith, inv.sums)) p on more)

  stays :
      (s : State Queue Local) (i : ℕ) (q : Queue) (l : Local)
      → s.place i ≡ local went_away
      → method msgsnd msgrcv n i s.shared (s.place i) ≢ some (q, l)
  unfolding herdsman
  stays s i q l gone e = let no : ◌≡◌ {A = Turn} none (some (q, l)) = rw gone at e in cc

  -- What a herdsman makes of a state when he goes on.
  gone_on : State Queue Local → ℕ → Place → State Queue Local
  gone_on s i p = record {
    shared = put s.shared (message n p);
    place = update s.place i (local (following p));
  }

  gone_on-Inv :
      (s : State Queue Local) (i : ℕ) (p : Place) (turn : Turn)
      → Inv n s
      → i < n
      → s.place i ≡ local p
      → Goes n s.shared p turn
      → Inv n (gone_on s i p)
  unfolding gone_on
  gone_on-Inv s i p turn inv lt e move = record {
    home =
        update_all Walks n s.place i (local (following p)) (following p, refl, move.on)
          (λ j j_in other. inv.home j j_in);
    sums =
        let before : unsent i (s.place i) ≡ to_send p = ap (unsent i) e in
        omega (
          arith,
          inv.sums,
          move.sums,
          before,
          total-update unsent n s.place i (local (following p)) lt,
        );
  }

  same_turn :
      (s : State Queue Local) (i : ℕ) (p : Place) (q : Queue) (l : Local)
      → ◌≡◌ {A = Turn} (some (q, l)) (some (put s.shared (message n p), local (following p)))
      → ◌≡◌ {A = State Queue Local}
          (gone_on s i p)
          (record { shared = q; place = update s.place i l })
  unfolding gone_on
  same_turn s i p q l e = cc

  step-Inv :
      (s : State Queue Local) (i : ℕ) (q : Queue) (l : Local)
      → i < n
      → Inv n s
      → method msgsnd msgrcv n i s.shared (s.place i) ≡ some (q, l)
      → Inv n (record { shared = q; place = update s.place i l })
  step-Inv s i q l lt inv e =
      let (p, at_p, on) = inv.home i lt in
      elim (dec_lt 0 (to_send p)) [
        | yes more ↦
            let move : Goes n s.shared p (method msgsnd msgrcv n i s.shared (s.place i)) =
              advance_here s i p inv lt at_p on more in
            subst (Inv n) (same_turn s i p q l (sym e ∙ move.turn_is))
              (gone_on-Inv s i p (method msgsnd msgrcv n i s.shared (s.place i)) inv lt at_p move)
        | no gone ↦
            let same : p ≡ went_away = to_send-zero p on (omega arith) in
            absurd (stays s i q l (at_p ∙ ap local same) e)
      ]

  begin-Inv : Inv n begin
  begin-Inv = record { home = λ i lt. (arrive, refl, refl); sums = omega (arith, total-begin n) }

  pub Reach-Inv : (s : State Queue Local) → Reach (method msgsnd msgrcv n) n begin s → Inv n s
  Reach-Inv s r =
      Reach-invariant (method msgsnd msgrcv n) (Inv n) begin-Inv
        (λ x i q l lt inv e. step-Inv x i q l lt inv e) r

  module _ (s : State Queue Local) (r : Reach (method msgsnd msgrcv n) n begin s) where
    -- Where the queue has room for four messages of each herdsman, and takes messages of n + 8 bytes: in
    -- every state that they can bring about, each of the `n` herdsmen has gone away or can take his
    -- next step, and that leads to the next place of his way, which is the same whatever the others
    -- have done; he takes no message from the queue.
    pub never_waits :
        (i : ℕ)
        → i < n
        → (s.place i ≡ local went_away)
          ⊎ ((p : Place) × (s.place i ≡ local p)
              × (method msgsnd msgrcv n i s.shared (s.place i)
                  ≡ some (put s.shared (message n p), local (following p))))
    never_waits i lt =
        let inv : Inv n s = Reach-Inv s r in
        let (p, at_p, on) = inv.home i lt in
        elim (dec_lt 0 (to_send p)) [
          | yes more ↦ inr (p, at_p, (advance_here s i p inv lt at_p on more).turn_is)
          | no gone ↦ inl (at_p ∙ ap local (to_send-zero p on (omega arith)))
        ]
