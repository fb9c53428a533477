-- ===== src/Threads/Invariant.antt =====
-- The invariant of the algorithms that lock the mutex: at most one thread is behind the lock, what is
-- counted and what is left add up, and a value that was read is still the counter's.
use sem.Prelude.{
  ℕ, ◌+◌, ◌^◌, ◌<◌, ◌≤◌, ◌≡◌, arith, Bool, true, false, total, total-update, at_most_one, update,
  update_all, dec_lt, ◌==◌, ◌⊎◌, inl, inr,
}
use sem.Process.{State}
use sem.Threads.{Globals, Place, loop, local, lock_mutex, entered, read, write, unlock_mutex, over}

-- What a thread has still to add to the counter.
abbrev pub left : ℕ → Place → ℕ
left i (loop k) = k
left i (local k loc_counter) = k + loc_counter
left i (lock_mutex k) = k
left i (entered k) = k
left i (read k a) = k + a
left i (write k a v) = k + a
left i (unlock_mutex k) = k
left i _ = 0

-- Behind the lock.
abbrev pub inside : ℕ → Place → ℕ
inside i (loop k) = 0
inside i (local k loc_counter) = 0
inside i (lock_mutex k) = 0
inside i over = 0
inside i _ = 1

abbrev pub flag : Bool → ℕ
flag true = 1
flag false = 0

abbrev pub IsFresh : Globals → Place → Type 0
IsFresh g (write k a v) = v ≡ g.counter
IsFresh g _ = Unit

pub record Inv (n expected : ℕ) (s : State Globals Place) : Type 0 where
  pub fits : expected < 2 ^ 64
  pub exclusive : flag s.shared.pthr_mut ≡ total inside n s.place
  pub sum : s.shared.counter + total left n s.place ≡ expected
  pub fresh : (i : ℕ) → i < n → IsFresh s.shared (s.place i)

pub flag_small : (b : Bool) → flag b ≤ 1
flag_small true = omega arith
flag_small false = omega arith

pub fresh_outside : (g : Globals) (j : ℕ) (p : Place) → inside j p ≡ 0 → IsFresh g p
fresh_outside g j (write k a v) out = absurd (omega arith)
fresh_outside g j (loop k) out = tt
fresh_outside g j (local k l) out = tt
fresh_outside g j (lock_mutex k) out = tt
fresh_outside g j over out = tt
fresh_outside g j p out = absurd (omega arith)

same_fresh : (g g' : Globals) (p : Place) → g'.counter ≡ g.counter → IsFresh g p → IsFresh g' p
same_fresh g g' (write k a v) same old = omega arith
same_fresh g g' (loop k) same old = tt
same_fresh g g' p same old = tt

module _ (n expected : ℕ) (s : State Globals Place) (i : ℕ) (lt : i < n) (inv : Inv n expected s)
    (p : Place) (at : s.place i ≡ p) where
  pub stepped :
      (g : Globals) (q : Place)
      → flag g.pthr_mut + inside i p ≡ flag s.shared.pthr_mut + inside i q
      → g.counter + left i q ≡ s.shared.counter + left i p
      → IsFresh g q
      → (g.counter ≡ s.shared.counter) ⊎ (inside i p ≡ 1)
      → Inv n expected (record { shared = g; place = update s.place i q })
  stepped g q lock_kept sum_kept new safe = record {
    fits = inv.fits;
    exclusive = omega (arith, rw at at (total-update inside n s.place i q lt));
    sum = omega (arith, rw at at (total-update left n s.place i q lt));
    fresh = update_all (λ j r. IsFresh g r) n s.place i q new others;
  }
    where
      alone : inside i p ≡ 1 → (j : ℕ) → j < n → (i == j) ≡ false → inside j (s.place j) ≡ 0
      alone own j j_in apart = elim (dec_lt 0 (inside j (s.place j))) [
        | yes two ↦
            let same : i ≡ j =
              at_most_one inside n s.place i j
                (omega (arith, inv.exclusive, flag_small s.shared.pthr_mut)) lt j_in
                (rw at (omega arith)) two in
            absurd (ground arith)
        | no out ↦ omega arith
      ]

      others : (j : ℕ) → j < n → (i == j) ≡ false → IsFresh g (s.place j)
      others j j_in apart = elim safe [
        | inl same ↦ same_fresh s.shared g (s.place j) same (inv.fresh j j_in)
        | inr own ↦ fresh_outside g j (s.place j) (alone own j j_in apart)
      ]
