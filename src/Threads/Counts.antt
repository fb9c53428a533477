-- ===== src/Threads/Counts.antt =====
-- What the threads of `My_threads` have counted, in every order of their steps.
use sem.Prelude.{
  ℕ, zero, suc, ◌+◌, ◌*◌, ◌^◌, ◌<◌, ◌≤◌, ◌≡◌, ◌≢◌, refl, arith, Bool, true, Option, some, update,
  update_all, total, total-suc, total-zero, total-eq-zero, total-pos, at_most_one, Bool-cases, inl,
  inr, ◌⊎◌, ap,
}
use sem.Process.{State, Reach, Reach-invariant, steps, steps-bound}
use sem.Threads.{
  Globals, IsMutex, Place, over, loop, local, lock_mutex, Algo, first, second, third, fourth,
  method, first_place, my_threads,
}
use sem.Threads.Invariant.{Inv, left, inside, flag, flag_small}
use sem.Threads.Methods.{second_algo-Inv, third_algo-Inv, fourth_algo-Inv}
use sem.Threads.Work.{belongs, work, function-Kept, function_moves}
use sem.Threads.Parts.{my_threads-Inv, my_threads-belongs, my_threads-left}

total-work-le :
    (f : ℕ → Place)
    → ((i : ℕ) → work i (f i) ≤ 7 * left i (f i) + 6)
    → (n : ℕ) → total work n f ≤ 7 * total left n f + 6 * n
total-work-le f h zero = omega (arith, total-zero work f)
total-work-le f h (suc n) =
    omega (arith, total-work-le f h n, h n, total-suc work n f, total-suc left n f)

work-first_place :
    (algo : Algo) (i prm : ℕ)
    → work i (first_place algo prm) ≤ 7 * left i (first_place algo prm) + 6
work-first_place first i prm = omega arith
work-first_place second i prm = omega arith
work-first_place third i prm = omega arith
work-first_place fourth i prm = omega arith

first-cases : (algo : Algo) → (algo ≡ first) ⊎ (algo ≢ first)
first-cases first = inl refl
first-cases second = inr (λ e. cc)
first-cases third = inr (λ e. cc)
first-cases fourth = inr (λ e. cc)

inside_small : (i : ℕ) (p : Place) → inside i p ≤ 1
inside_small i (loop k) = omega arith
inside_small i (local k l) = omega arith
inside_small i (lock_mutex k) = omega arith
inside_small i over = omega arith
inside_small i p = omega arith

method-Inv :
    {lock : Bool → Option Bool} {unlock : Bool → Bool}
    → IsMutex lock unlock
    → (n expected : ℕ) (algo : Algo) → algo ≢ first
    → (x : State Globals Place) (i : ℕ) (g : Globals) (q : Place) → i < n
    → Inv n expected x
    → method lock unlock algo i x.shared (x.place i) ≡ some (g, q)
    → Inv n expected (record { shared = g; place = update x.place i q })
method-Inv law n expected first locks x i g q lt inv e = absurd (locks refl)
method-Inv law n expected second locks x i g q lt inv e =
    second_algo-Inv law n expected x i g q lt inv (x.place i) refl e
method-Inv law n expected third locks x i g q lt inv e =
    third_algo-Inv law n expected x i g q lt inv (x.place i) refl e
method-Inv law n expected fourth locks x i g q lt inv e =
    fourth_algo-Inv law n expected x i g q lt inv (x.place i) refl e

module _ {lock : Bool → Option Bool} {unlock : Bool → Bool} (law : IsMutex lock unlock) (m : ℕ)
    (expctd_val : ℕ) (small : expctd_val < 2 ^ 31) (algo : Algo) (s : State Globals Place)
    (r : Reach (method lock unlock algo) (suc m) (my_threads algo expctd_val (suc m)) s) where
  abbrev Belong : State Globals Place → Type 0
  Belong t = (i : ℕ) → i < suc m → belongs algo (t.place i) ≡ true

  Reach-Belong :
      (t : State Globals Place)
      → Reach (method lock unlock algo) (suc m) (my_threads algo expctd_val (suc m)) t
      → Belong t
  Reach-Belong t run =
      Reach-invariant (method lock unlock algo) Belong
        (λ i lt. my_threads-belongs algo expctd_val (suc m) i)
        (λ x i g q lt b e.
          update_all (λ j p. belongs algo p ≡ true) (suc m) x.place i q
            (function-Kept lock unlock x.shared i g q algo (x.place i) (b i lt) e).0
            (λ j j_in apart. b j j_in))
        run

  -- For an expected value below 2^31, a run of the threads has at most seven steps for each number to
  -- count and six for each thread.
  pub threads_end : steps (method lock unlock algo) r ≤ 7 * expctd_val + 6 * suc m
  unfolding my_threads
  threads_end = omega (
    arith,
    my_threads-left expctd_val m small algo,
    start_work,
    steps-bound (method lock unlock algo) Belong work Reach-Belong
        (λ x i g q lt b e. (function-Kept lock unlock x.shared i g q algo (x.place i) (b i lt) e).1)
        r,
  )
    where
      start_work :
          total work (suc m) (my_threads algo expctd_val (suc m)).place
          ≤ 7 * total left (suc m) (my_threads algo expctd_val (suc m)).place + 6 * suc m
      start_work = total-work-le _ (λ i. work-first_place algo i _) (suc m)

  Reach-Inv : algo ≢ first → Inv (suc m) expctd_val s
  Reach-Inv locks =
      Reach-invariant (method lock unlock algo) (Inv (suc m) expctd_val)
        (my_threads-Inv expctd_val m small algo)
        (λ x i g q lt inv e. method-Inv law (suc m) expctd_val algo locks x i g q lt inv e) r

  -- With every algorithm but the first: when all threads have returned, the counter is at the expected
  -- value, whatever the order of their steps was, for an expected value below 2^31.
  pub counter_counts :
      algo ≢ first → ((i : ℕ) → i < suc m → s.place i ≡ over) → s.shared.counter ≡ expctd_val
  counter_counts locks all_over = omega (
    arith,
    (Reach-Inv locks).sum,
    total-eq-zero left (suc m) s.place (λ i lt. rw (all_over i lt) refl),
  )

  -- With every algorithm but the first, and an expected value below 2^31, at most one thread is between
  -- locking and unlocking the mutex.
  pub one_inside :
      algo ≢ first
      → (i j : ℕ) → i < suc m
      → j < suc m
      → inside i (s.place i) ≡ 1
      → inside j (s.place j) ≡ 1
      → i ≡ j
  one_inside locks i j i_in j_in in_i in_j =
      at_most_one inside (suc m) s.place i j
        (omega (arith, (Reach-Inv locks).exclusive, flag_small s.shared.pthr_mut)) i_in j_in
        (omega arith) (omega arith)

  abbrev pub Mover : Type 0
  Mover =
      (j : ℕ) × (j < suc m)
      × ((t : Globals × Place) × (method lock unlock algo j s.shared (s.place j) ≡ some t))

  moves :
      (i : ℕ)
      → i < suc m
      → s.place i ≢ over
      → (s.shared.pthr_mut ≡ true → algo ≢ first → inside i (s.place i) ≡ 1)
      → Mover
  moves i lt unfinished own = (
    i,
    lt,
    function_moves lock unlock s.shared i law algo (s.place i) (Reach-Belong s r i lt) unfinished
        own,
  )

  -- For an expected value below 2^31: while some thread has not returned, there is a thread that can take
  -- a step.
  pub thread_unfinished_progress : (i : ℕ) → i < suc m → s.place i ≢ over → Mover
  thread_unfinished_progress i lt unfinished = elim (first-cases algo) [
    | inl no_lock ↦ moves i lt unfinished (λ up locks. absurd (locks no_lock))
    | inr locks ↦ elim (Bool-cases s.shared.pthr_mut) [
      | inl up ↦
          let (j, j_in, w) =
            total-pos inside (suc m) s.place
              (omega (arith, (Reach-Inv locks).exclusive, ap flag up)) in
          moves j j_in (λ e. absurd (omega (arith, ap (inside j) e, w)))
            (λ up locks. omega (arith, w, inside_small j (s.place j)))
      | inr down ↦ moves i lt unfinished (λ up locks. absurd (ground arith))
    ]
  ]
