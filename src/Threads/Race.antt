-- ===== src/Threads/Race.antt =====
-- The first algorithm locks nothing, and its threads can lose each other's additions.
use sem.Prelude.{
  ℕ, zero, suc, ◌+◌, ◌/◌, ◌^◌, ◌<◌, ◌≤◌, ◌≡◌, ◌≢◌, refl, arith, Bool, Option, some, update, ap, sym,
  subst, ◌%◌, ◌-◌, ◌∙◌,
}
use sem.Process.{State, Reach, start, later, run, Reach-trans}
use sem.Threads.{
  Globals, Place, loop, read, write, over, sum_64, first, first_algo, method, my_threads,
}
use sem.Prelude.Int.{pos_part}
use sem.Threads.Parts.{value-pos, sec-pos}

module _ (lock : Bool → Option Bool) (unlock : Bool → Bool) where
  -- From `s` on thread `i` can count on to the end, while the others stand still.
  pub record Alone (n i k : ℕ) (s : State Globals Place) : Type 0 where
    pub later_state : State Globals Place
    pub reached : Reach (method lock unlock first) n s later_state
    pub counted : later_state.shared.counter ≡ s.shared.counter + k
    pub at_end : later_state.place i ≡ over
    pub others : (j : ℕ) → j ≢ i → later_state.place j ≡ s.place j

  stays : (f : ℕ → Place) (i j : ℕ) (p : Place) → j ≢ i → update f i p j ≡ f j
  stays f i j p apart = ground arith

  at_new : (f : ℕ → Place) (i : ℕ) (p : Place) → update f i p i ≡ p
  at_new f i p = ground arith

  abbrev put : State Globals Place → ℕ → ℕ → Place → State Globals Place
  put s i v p = record { shared = record s.shared { counter = v }; place = update s.place i p }

  one_step :
      (n i : ℕ) (s : State Globals Place) (p q : Place) (v : ℕ)
      → i < n
      → s.place i ≡ p
      → first_algo lock unlock s.shared p ≡ some (record s.shared { counter = v }, q)
      → Reach (method lock unlock first) n s (put s i v q)
  one_step n i s p q v lt at e = later start (run i lt (rw at e))

  alone :
      (n i k : ℕ) (s : State Globals Place)
      → i < n
      → s.place i ≡ loop k
      → s.shared.counter + k < 2 ^ 64
      → Alone n i k s
  unfolding first_algo
  alone n i zero s lt at fits = record {
    later_state = put s i s.shared.counter over;
    reached = one_step n i s (loop zero) over s.shared.counter lt at refl;
    counted = omega arith;
    at_end = at_new s.place i over;
    others = λ j apart. stays s.place i j over apart;
  }
  alone n i (suc k) s lt at fits =
      let rest = alone n i k s3 lt (at_new s2.place i (loop k)) (omega (arith, exact)) in
      record {
        later_state = rest.later_state;
        reached =
            Reach-trans (method lock unlock first)
              (Reach-trans (method lock unlock first)
                (one_step n i s (loop (suc k)) (read k 1) c lt at refl)
                (Reach-trans (method lock unlock first)
                  (one_step n i s1 (read k 1) (write k 1 c) c lt (at_new s.place i (read k 1)) refl)
                  (one_step n i s2 (write k 1 c) (loop k) (sum_64 c 1) lt
                    (at_new s1.place i (write k 1 c)) refl)))
              rest.reached;
        counted = omega (arith, rest.counted, exact);
        at_end = rest.at_end;
        others = λ j apart.
            rest.others j apart
            ∙ stays s2.place i j (loop k) apart
            ∙ stays s1.place i j (write k 1 c) apart
            ∙ stays s.place i j (read k 1) apart;
      }
    where
      c : ℕ
      c = s.shared.counter

      s1 : State Globals Place
      s1 = put s i c (read k 1)

      s2 : State Globals Place
      s2 = put s1 i c (write k 1 c)

      s3 : State Globals Place
      s3 = put s2 i (sum_64 c 1) (loop k)

      exact : sum_64 c 1 ≡ c + 1
      exact = omega arith

  -- A state in which both of two threads have returned, with the counter at `v`.
  pub record Ends (z : State Globals Place) (v : ℕ) : Type 0 where
    pub last_state : State Globals Place
    pub run_there : Reach (method lock unlock first) 2 z last_state
    pub over_0 : last_state.place 0 ≡ over
    pub over_1 : last_state.place 1 ≡ over
    pub got : last_state.shared.counter ≡ v

  lost :
      (a b : ℕ) (z : State Globals Place)
      → a < 2 ^ 32
      → b < 2 ^ 32
      → z.shared.counter ≡ 0
      → z.place 0 ≡ loop a
      → z.place 1 ≡ loop (suc b)
      → Ends z (suc b)
  unfolding first_algo
  lost a b z small_a small_b at_zero place_0 place_1 = record {
    last_state = last.later_state;
    run_there =
        Reach-trans (method lock unlock first)
          (Reach-trans (method lock unlock first)
            (one_step 2 1 z (loop (suc b)) (read b 1) 0 (omega arith) place_1 (rw at_zero refl))
            (one_step 2 1 z1 (read b 1) (write b 1 0) 0 (omega arith) (at_new z.place 1 (read b 1))
              refl))
          (Reach-trans (method lock unlock first) all_of_0.reached (
            Reach-trans (method lock unlock first)
              (one_step 2 1 t (write b 1 0) (loop b) 1 (omega arith) waits refl) last.reached));
    over_0 =
        last.others 0 (λ e. absurd (omega arith))
        ∙ stays t.place 1 0 (loop b) (λ e. absurd (omega arith))
        ∙ all_of_0.at_end;
    over_1 = last.at_end;
    got = omega (arith, last.counted);
  }
    where
      z1 : State Globals Place
      z1 = put z 1 0 (read b 1)

      z2 : State Globals Place
      z2 = put z1 1 0 (write b 1 0)

      all_of_0 : Alone 2 0 a z2
      all_of_0 =
          alone 2 0 a z2 (omega arith)
            (stays z1.place 1 0 (write b 1 0) (λ e. absurd (omega arith))
              ∙ stays z.place 1 0 (read b 1) (λ e. absurd (omega arith))
              ∙ place_0)
            (omega arith)

      t : State Globals Place
      t = all_of_0.later_state

      waits : t.place 1 ≡ write b 1 0
      waits = all_of_0.others 1 (λ e. absurd (omega arith)) ∙ at_new z1.place 1 (write b 1 0)

      t1 : State Globals Place
      t1 = put t 1 1 (loop b)

      last : Alone 2 1 b t1
      last = alone 2 1 b t1 (omega arith) (at_new t.place 1 (loop b)) (omega arith)

  -- With the first algorithm and two threads there is, for every expected value from 2 to 2^31 - 1, an
  -- order of their steps in which both return and the counter is half of that value, rounded down.
  pub additions_lost :
      (expctd_val : ℕ)
      → 2 ≤ expctd_val
      → expctd_val < 2 ^ 31
      → Ends (my_threads first expctd_val 2) (expctd_val / 2)
  unfolding my_threads
  additions_lost expctd_val some_value small =
      subst (λ v. Ends (my_threads first expctd_val 2) v) half
        (lost (expctd_val / 2 + expctd_val % 2) (expctd_val / 2 - 1) (my_threads first expctd_val 2)
          (omega arith) (omega arith) refl
          (ap (λ v. loop (pos_part v)) (sec-pos expctd_val 1 small))
          (ap (λ v. loop (pos_part v)) (value-pos expctd_val 1 small) ∙ ap loop (sym half)))
    where
      half : suc (expctd_val / 2 - 1) ≡ expctd_val / 2
      half = omega arith
