-- ===== src/Threads/Methods.antt =====
-- Every step of the algorithms that lock the mutex keeps their invariant.
use sem.Prelude.{
  ℕ, zero, suc, ◌+◌, ◌<◌, ◌≡◌, refl, arith, ap, Bool, true, Option, some, le-total, update, inl,
  inr, Bool-cases,
}
use sem.Process.{State}
use sem.Threads.{
  Globals, IsMutex, Place, loop, local, lock_mutex, entered, read, write, unlock_mutex, unlock_last,
  over, Turn, second_algo, third_algo, fourth_algo, locking, sum_64,
}
use sem.Threads.Invariant.{Inv, left, inside, flag, IsFresh, stepped, fresh_outside}

module _ {lock : Bool → Option Bool} {unlock : Bool → Bool} (law : IsMutex lock unlock)
    (n expected : ℕ) (s : State Globals Place) (i : ℕ) (g : Globals) (q : Place) (lt : i < n)
    (inv : Inv n expected s) where
  abbrev Target : Type 0
  Target = Inv n expected (record { shared = g; place = update s.place i q })

  landed :
      (x : Globals) (r : Place)
      → ◌≡◌ {A = Turn} (some (x, r)) (some (g, q))
      → Inv n expected (record { shared = x; place = update s.place i r })
      → Target
  landed x r e h =
      let eg : x ≡ g = ground arith in let eq : r ≡ q = ground arith in rw (← eg, ← eq) h

  -- A step of the thread alone.
  walked :
      (p r : Place)
      → s.place i ≡ p
      → ◌≡◌ {A = Turn} (some (s.shared, r)) (some (g, q))
      → inside i r ≡ inside i p
      → left i r ≡ left i p
      → IsFresh s.shared r
      → Target
  walked p r at e same_side same_left new =
      landed s.shared r e
        (stepped n expected s i lt inv p at s.shared r (omega arith) (omega arith) new (inl refl))

  locked :
      (p r : Place)
      → s.place i ≡ p
      → locking lock unlock s.shared (lock s.shared.pthr_mut) r ≡ some (g, q)
      → inside i p ≡ 0
      → inside i r ≡ 1
      → left i r ≡ left i p
      → ((x : Globals) → IsFresh x r)
      → Target
  locked p r at e out within same_left new = elim (Bool-cases s.shared.pthr_mut) [
    | inl up ↦ absurd (ground (arith, law.waits))
    | inr down ↦
        let took : lock s.shared.pthr_mut ≡ some true = rw down law.takes in
        landed (record s.shared { pthr_mut = true }) r (rw took at e)
          (stepped n expected s i lt inv p at (record s.shared { pthr_mut = true }) r
            (rw down (omega arith)) (omega arith) (new (record s.shared { pthr_mut = true }))
            (inl refl))
  ]

  unlocked :
      (p r : Place)
      → s.place i ≡ p
      → ◌≡◌ {A = Turn}
          (some (record s.shared { pthr_mut = unlock s.shared.pthr_mut }, r))
          (some (g, q))
      → inside i p ≡ 1
      → inside i r ≡ 0
      → left i r ≡ left i p
      → Target
  unlocked p r at e within out same_left =
      landed (record s.shared { pthr_mut = unlock s.shared.pthr_mut }) r e
        (stepped n expected s i lt inv p at
          (record s.shared { pthr_mut = unlock s.shared.pthr_mut }) r
          (rw (up, law.frees) (omega arith)) (omega arith)
          (fresh_outside (record s.shared { pthr_mut = unlock s.shared.pthr_mut }) i r out)
          (inl refl))
    where
      up : s.shared.pthr_mut ≡ true
      up = elim (Bool-cases s.shared.pthr_mut) [
        | inl yes_up ↦ yes_up
        | inr down ↦ absurd (
            omega (
              arith,
              le-total inside n s.place i lt,
              inv.exclusive,
              ap flag down,
              ap (inside i) at,
            ))
      ]

  added :
      (k a v : ℕ) (r : Place)
      → s.place i ≡ write k a v
      → ◌≡◌ {A = Turn} (some (record s.shared { counter = sum_64 v a }, r)) (some (g, q))
      → inside i r ≡ 1
      → left i r ≡ k
      → ((x : Globals) → IsFresh x r)
      → Target
  added k a v r at e within same_left new =
      landed (record s.shared { counter = sum_64 v a }) r e
        (stepped n expected s i lt inv (write k a v) at (record s.shared { counter = sum_64 v a }) r
          (omega arith) (omega (arith, exact)) (new (record s.shared { counter = sum_64 v a }))
          (inr refl))
    where
      held : v ≡ s.shared.counter
      held = rw at at (inv.fresh i lt)

      exact : sum_64 v a ≡ s.shared.counter + a
      exact = omega (arith, inv.sum, inv.fits, held, le-total left n s.place i lt, ap (left i) at)

  pub second_algo-Inv :
      (p : Place) → s.place i ≡ p → second_algo lock unlock s.shared p ≡ some (g, q) → Target
  unfolding second_algo
  second_algo-Inv (loop zero) at e = walked (loop zero) over at e refl refl tt
  second_algo-Inv (loop (suc k)) at e = walked (loop (suc k)) (lock_mutex (suc k)) at e refl refl tt
  second_algo-Inv (lock_mutex k) at e =
      locked (lock_mutex k) (entered k) at e refl refl refl (λ x. tt)
  second_algo-Inv (entered (suc k)) at e =
      walked (entered (suc k)) (read k 1) at e refl (omega arith) tt
  second_algo-Inv (read k a) at e =
      walked (read k a) (write k a s.shared.counter) at e refl refl refl
  second_algo-Inv (write k a v) at e = added k a v (unlock_mutex k) at e refl refl (λ x. tt)
  second_algo-Inv (unlock_mutex k) at e = unlocked (unlock_mutex k) (loop k) at e refl refl refl
  second_algo-Inv p at e = cc

  pub third_algo-Inv :
      (p : Place) → s.place i ≡ p → third_algo lock unlock s.shared p ≡ some (g, q) → Target
  unfolding third_algo
  third_algo-Inv (lock_mutex k) at e =
      locked (lock_mutex k) (entered k) at e refl refl refl (λ x. tt)
  third_algo-Inv (entered zero) at e = walked (entered zero) unlock_last at e refl refl tt
  third_algo-Inv (entered (suc k)) at e =
      walked (entered (suc k)) (read k 1) at e refl (omega arith) tt
  third_algo-Inv (read k a) at e =
      walked (read k a) (write k a s.shared.counter) at e refl refl refl
  third_algo-Inv (write k a v) at e = added k a v (entered k) at e refl refl (λ x. tt)
  third_algo-Inv unlock_last at e = unlocked unlock_last over at e refl refl refl
  third_algo-Inv p at e = cc

  pub fourth_algo-Inv :
      (p : Place) → s.place i ≡ p → fourth_algo lock unlock s.shared p ≡ some (g, q) → Target
  unfolding fourth_algo
  fourth_algo-Inv (local zero l) at e =
      walked (local zero l) (lock_mutex l) at e refl (omega arith) tt
  fourth_algo-Inv (local (suc k) l) at e =
      walked (local (suc k) l) (local k (l + 1)) at e refl (omega arith) tt
  fourth_algo-Inv (lock_mutex l) at e =
      locked (lock_mutex l) (entered l) at e refl refl refl (λ x. tt)
  fourth_algo-Inv (entered l) at e = walked (entered l) (read zero l) at e refl (omega arith) tt
  fourth_algo-Inv (read zero a) at e =
      walked (read zero a) (write zero a s.shared.counter) at e refl refl refl
  fourth_algo-Inv (write zero a v) at e = added zero a v unlock_last at e refl refl (λ x. tt)
  fourth_algo-Inv unlock_last at e = unlocked unlock_last over at e refl refl refl
  fourth_algo-Inv p at e = cc
