-- ===== src/Threads/Work.antt =====
-- The places that each algorithm goes through, and a measure that every step lowers.
use sem.Prelude.{
  ℕ, zero, suc, ◌+◌, ◌*◌, ◌<◌, ◌≡◌, ◌≢◌, refl, arith, Bool, true, false, Option, none, some,
  Bool-cases, inl, inr, ap,
}
use sem.Threads.{
  Globals, IsMutex, Place, loop, local, lock_mutex, entered, read, write, unlock_mutex, unlock_last,
  over, Turn, first_algo, second_algo, third_algo, fourth_algo, locking, function, Algo, first,
  second, third, fourth,
}
use sem.Threads.Invariant.{inside}

abbrev pub belongs : Algo → Place → Bool
belongs first (loop k) = true
belongs first (read k (suc a)) = true
belongs first (write k (suc a) v) = true
belongs second (loop k) = true
belongs second (lock_mutex (suc k)) = true
belongs second (entered (suc k)) = true
belongs second (read k (suc a)) = true
belongs second (write k (suc a) v) = true
belongs second (unlock_mutex k) = true
belongs third (lock_mutex k) = true
belongs third (entered k) = true
belongs third (read k (suc a)) = true
belongs third (write k (suc a) v) = true
belongs third unlock_last = true
belongs fourth (local k loc_counter) = true
belongs fourth (lock_mutex k) = true
belongs fourth (entered k) = true
belongs fourth (read zero a) = true
belongs fourth (write zero a v) = true
belongs fourth unlock_last = true
belongs algo over = true
belongs algo p = false

-- At most so many steps are ahead of a thread.
abbrev pub work : ℕ → Place → ℕ
work i (loop k) = 6 * k + 6
work i (local k loc_counter) = 6 * (k + loc_counter) + k + 6
work i (lock_mutex k) = 6 * k + 5
work i (entered k) = 6 * k + 4
work i (read k a) = 6 * (k + a) + 3
work i (write k a v) = 6 * (k + a) + 2
work i (unlock_mutex k) = 6 * k + 7
work i unlock_last = 1
work i over = 0

module _ (lock : Bool → Option Bool) (unlock : Bool → Bool) (g : Globals) where
  abbrev pub Kept : Algo → ℕ → Place → Place → Type 0
  Kept algo i p q = (belongs algo q ≡ true) × (work i q < work i p)

  module _ (i : ℕ) (g' : Globals) (q : Place) where
    ran :
        (algo : Algo) (p r : Place) (x : Globals)
        → ◌≡◌ {A = Turn} (some (x, r)) (some (g', q))
        → Kept algo i p r
        → Kept algo i p q
    ran algo p r x e h = let same : r ≡ q = ground arith in rw (← same) h

    took :
        (algo : Algo) (p r : Place) (m : Option Bool)
        → locking lock unlock g m r ≡ some (g', q)
        → Kept algo i p r
        → Kept algo i p q
    took algo p r none e h = cc
    took algo p r (some m) e h = ran algo p r (record g { pthr_mut = m }) e h

    pub function-Kept :
        (algo : Algo) (p : Place)
        → belongs algo p ≡ true
        → function lock unlock algo g p ≡ some (g', q)
        → Kept algo i p q
    unfolding first_algo second_algo third_algo fourth_algo
    function-Kept first (loop zero) b e = ran first (loop zero) over _ e (refl, omega arith)
    function-Kept first (loop (suc k)) b e =
        ran first (loop (suc k)) (read k 1) _ e (refl, omega arith)
    function-Kept first (read k (suc a)) b e =
        ran first (read k (suc a)) (write k (suc a) g.counter) _ e (refl, omega arith)
    function-Kept first (write k (suc a) v) b e =
        ran first (write k (suc a) v) (loop k) _ e (refl, omega arith)
    function-Kept second (loop zero) b e = ran second (loop zero) over _ e (refl, omega arith)
    function-Kept second (loop (suc k)) b e =
        ran second (loop (suc k)) (lock_mutex (suc k)) _ e (refl, omega arith)
    function-Kept second (lock_mutex (suc k)) b e =
        took second (lock_mutex (suc k)) (entered (suc k)) _ e (refl, omega arith)
    function-Kept second (entered (suc k)) b e =
        ran second (entered (suc k)) (read k 1) _ e (refl, omega arith)
    function-Kept second (read k (suc a)) b e =
        ran second (read k (suc a)) (write k (suc a) g.counter) _ e (refl, omega arith)
    function-Kept second (write k (suc a) v) b e =
        ran second (write k (suc a) v) (unlock_mutex k) _ e (refl, omega arith)
    function-Kept second (unlock_mutex k) b e =
        ran second (unlock_mutex k) (loop k) _ e (refl, omega arith)
    function-Kept third (lock_mutex k) b e =
        took third (lock_mutex k) (entered k) _ e (refl, omega arith)
    function-Kept third (entered zero) b e =
        ran third (entered zero) unlock_last _ e (refl, omega arith)
    function-Kept third (entered (suc k)) b e =
        ran third (entered (suc k)) (read k 1) _ e (refl, omega arith)
    function-Kept third (read k (suc a)) b e =
        ran third (read k (suc a)) (write k (suc a) g.counter) _ e (refl, omega arith)
    function-Kept third (write k (suc a) v) b e =
        ran third (write k (suc a) v) (entered k) _ e (refl, omega arith)
    function-Kept third unlock_last b e = ran third unlock_last over _ e (refl, omega arith)
    function-Kept fourth (local zero l) b e =
        ran fourth (local zero l) (lock_mutex l) _ e (refl, omega arith)
    function-Kept fourth (local (suc k) l) b e =
        ran fourth (local (suc k) l) (local k (l + 1)) _ e (refl, omega arith)
    function-Kept fourth (lock_mutex k) b e =
        took fourth (lock_mutex k) (entered k) _ e (refl, omega arith)
    function-Kept fourth (entered l) b e =
        ran fourth (entered l) (read zero l) _ e (refl, omega arith)
    function-Kept fourth (read zero a) b e =
        ran fourth (read zero a) (write zero a g.counter) _ e (refl, omega arith)
    function-Kept fourth (write zero a v) b e =
        ran fourth (write zero a v) unlock_last _ e (refl, omega arith)
    function-Kept fourth unlock_last b e = ran fourth unlock_last over _ e (refl, omega arith)
    function-Kept algo p b e = cc

  takes :
      (r : Place)
      → IsMutex lock unlock
      → g.pthr_mut ≢ true
      → (t : Globals × Place) × (locking lock unlock g (lock g.pthr_mut) r ≡ some t)
  takes r law own = elim (Bool-cases g.pthr_mut) [
    | inl up ↦ absurd (own up)
    | inr down ↦
        let free : lock g.pthr_mut ≡ some true = rw down law.takes in
        (_, ap (λ o. locking lock unlock g o r) free)
  ]

  -- A thread goes on unless it is over or the mutex is locked before it.
  pub function_moves :
      (i : ℕ)
      → IsMutex lock unlock
      → (algo : Algo) (p : Place) → belongs algo p ≡ true
      → p ≢ over
      → (g.pthr_mut ≡ true → (algo ≢ first) → inside i p ≡ 1)
      → (t : Globals × Place) × (function lock unlock algo g p ≡ some t)
  unfolding first_algo second_algo third_algo fourth_algo
  function_moves i law first (loop zero) b unfinished own = (_, refl)
  function_moves i law first (loop (suc k)) b unfinished own = (_, refl)
  function_moves i law first (read k a) b unfinished own = (_, refl)
  function_moves i law first (write k a v) b unfinished own = (_, refl)
  function_moves i law second (loop zero) b unfinished own = (_, refl)
  function_moves i law second (loop (suc k)) b unfinished own = (_, refl)
  function_moves i law second (lock_mutex k) b unfinished own =
      takes (entered k) law (λ up. absurd (omega (arith, own up (λ e. cc))))
  function_moves i law second (entered (suc k)) b unfinished own = (_, refl)
  function_moves i law second (read k a) b unfinished own = (_, refl)
  function_moves i law second (write k a v) b unfinished own = (_, refl)
  function_moves i law second (unlock_mutex k) b unfinished own = (_, refl)
  function_moves i law third (lock_mutex k) b unfinished own =
      takes (entered k) law (λ up. absurd (omega (arith, own up (λ e. cc))))
  function_moves i law third (entered zero) b unfinished own = (_, refl)
  function_moves i law third (entered (suc k)) b unfinished own = (_, refl)
  function_moves i law third (read k a) b unfinished own = (_, refl)
  function_moves i law third (write k a v) b unfinished own = (_, refl)
  function_moves i law third unlock_last b unfinished own = (_, refl)
  function_moves i law fourth (local zero l) b unfinished own = (_, refl)
  function_moves i law fourth (local (suc k) l) b unfinished own = (_, refl)
  function_moves i law fourth (lock_mutex k) b unfinished own =
      takes (entered k) law (λ up. absurd (omega (arith, own up (λ e. cc))))
  function_moves i law fourth (entered l) b unfinished own = (_, refl)
  function_moves i law fourth (read zero a) b unfinished own = (_, refl)
  function_moves i law fourth (write zero a v) b unfinished own = (_, refl)
  function_moves i law fourth unlock_last b unfinished own = (_, refl)
  function_moves i law algo over b unfinished own = absurd (unfinished refl)
  function_moves i law algo p b unfinished own = cc
