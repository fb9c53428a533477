-- ===== src/Bridge/Safety.antt =====
-- What holds of the cars and ships of bridge.c, in whatever order they run.
use sem.Prelude.{Bool-cases, inl, inr, if◌then◌else◌}
use sem.Prelude.{
  ℕ, ◌+◌, ◌^◌, ◌<◌, ◌≤◌, ◌≡◌, ◌≢◌, refl, arith, total, total-eq-zero, le-total, some, true, false,
  update, at_most_one,
}
use sem.Process.{State, Reach, Reach-invariant}
use sem.Sems.{Semop, IsSemop, Values}
use sem.Sems.Laws.{v_oper_adds}
use sem.Bridge.{
  Shared, Place, arrive, exited, is_car, num_of_semaphors, method, init, children, open_cond,
  close_cond, shrd_var, bridge, car,
}
use sem.Bridge.Invariant.{
  Inv, Held, method-Held, in_shared, on_bridge, permit, car_permit, ship_claim, ship_chooses,
  car_waiting, ship_waiting, has_exited,
}

-- The values of a new set of semaphores.
abbrev pub fresh : Values
fresh = λ _. 0

abbrev first : Values
first = update fresh shrd_var 1

abbrev second : Values
second = update first bridge 1

exited_counts : (i : ℕ) (p : Place) → p ≡ exited → has_exited i p ≡ 1
exited_counts i p e = rw e

car_holds : (i : ℕ) (p : Place) → is_car i ≡ true → permit p ≡ 1 → 1 ≤ car_permit i p
car_holds i p is has = ground arith

ship_holds :
    (i : ℕ) (p : Place) → is_car i ≡ false → permit p ≡ 1 → 1 ≤ ship_claim i p + ship_chooses i p
ship_holds i arrive is has = cc
ship_holds i p is has = ground arith

module _ {semop : Semop} (law : IsSemop num_of_semaphors semop) where
  init_lem :
      (z : Shared)
      → init semop fresh ≡ some z
      → (z.sems shrd_var ≡ 1)
        × (z.sems bridge ≡ 1)
        × (z.sems car ≡ 1)
        × (z.sems 1 ≡ 0)
        × (z.shm.num_of_waiting_cars ≡ 0)
        × (z.shm.num_of_waiting_ships ≡ 0)
        × (z.shm.bridge_cond ≡ close_cond)
  unfolding init
  init_lem z e = ground (
    arith,
    v_oper_adds law fresh shrd_var 1,
    v_oper_adds law first bridge 1,
    v_oper_adds law second car 1,
  )

  module _ (n : ℕ) (z : Shared) (few : n < 2 ^ 32) (started : init semop fresh ≡ some z) where
    none_yet : (w : ℕ → Place → ℕ) → ((i : ℕ) → w i arrive ≡ 0) → total w n (λ _. arrive) ≡ 0
    none_yet w light = total-eq-zero w n (λ _. arrive) (λ i lt. light i)

    children-Inv : Inv n (children z)
    children-Inv =
        let facts = init_lem z started in
        let a = none_yet in_shared (λ i. refl) in
        let b = none_yet on_bridge (λ i. refl) in
        let c = none_yet car_permit (λ i. ground arith) in
        let d = none_yet ship_claim (λ i. ground arith) in
        let e = none_yet ship_chooses (λ i. ground arith) in
        let f = none_yet car_waiting (λ i. ground arith) in
        let g = none_yet ship_waiting (λ i. ground arith) in
        let h = none_yet has_exited (λ i. refl) in omega arith

    pub Reach-Inv : {s : State Shared Place} → Reach (method semop) n (children z) s → Inv n s
    Reach-Inv r =
        let held =
          Reach-invariant (method semop) (Held n)
            (record { counts = children-Inv; reads = λ j lt. tt })
            (λ s i s' p lt held e. method-Held law n s i s' p held lt e) r in
        held.counts

    module _ (s : State Shared Place) (r : Reach (method semop) n (children z) s) where
      -- Whoever has the permission and has not yet moved the bridge, in the queue for it or on it,
      -- finds it lowered if it is a car and raised if it is a ship.
      pub permit_cond :
          (i : ℕ)
          → i < n
          → permit (s.place i) ≡ 1
          → s.shared.shm.bridge_cond ≡ (if is_car i then close_cond else open_cond)
      permit_cond i lt has =
          let inv = Reach-Inv r in
          elim (Bool-cases (is_car i)) [
            | inl is ↦
                let cars = car_holds i (s.place i) is has in
                rw is (omega (arith, le-total car_permit n s.place i lt))
            | inr is ↦
                let ships = ship_holds i (s.place i) is has in
                let claims = le-total ship_claim n s.place i lt in
                let choices = le-total ship_chooses n s.place i lt in rw is (omega arith)
          ]

      -- No two processes are on the bridge together.
      pub one_on_bridge :
          (i j : ℕ)
          → i < n
          → j < n
          → on_bridge i (s.place i) ≡ 1
          → on_bridge j (s.place j) ≡ 1
          → i ≡ j
      one_on_bridge i j i_in j_in oi oj =
          let inv = Reach-Inv r in
          at_most_one on_bridge n s.place i j (omega arith) i_in j_in (omega arith) (omega arith)

      -- No two processes work with `shm_struct` at the same time.
      pub one_in_shared :
          (i j : ℕ)
          → i < n
          → j < n
          → in_shared i (s.place i) ≡ 1
          → in_shared j (s.place j) ≡ 1
          → i ≡ j
      one_in_shared i j i_in j_in oi oj =
          let inv = Reach-Inv r in
          at_most_one in_shared n s.place i j (omega arith) i_in j_in (omega arith) (omega arith)

      -- For fewer than 2^32 processes, after Init: the shared numbers are the numbers of cars and
      -- ships that have been counted and have not crossed: neither `++` nor `--`, each a read and
      -- a write, is lost or ever wraps around.
      pub waiting_exact :
          (s.shared.shm.num_of_waiting_cars ≡ total car_waiting n s.place)
          × (s.shared.shm.num_of_waiting_ships ≡ total ship_waiting n s.place)
      waiting_exact = let inv = Reach-Inv r in (inv.cars, inv.ships)

      -- No process exits in a semaphore operation.
      pub never_exits : (i : ℕ) → i < n → s.place i ≢ exited
      never_exits i lt e =
          let inv = Reach-Inv r in
          absurd (omega (arith, le-total has_exited n s.place i lt, exited_counts i (s.place i) e))
