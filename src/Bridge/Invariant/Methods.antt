-- ===== src/Bridge/Invariant/Methods.antt =====
-- Every step of `Car_method` and of `Ship_method` keeps the invariant.
use sem.Prelude.{ℕ, ◌<◌, ◌≤◌, ◌≡◌, arith, update, some, true, false, Bool-cases, inl, inr}
use sem.Prelude.Int.{pos}
use sem.Process.{State}
use sem.Sems.{Semop, IsSemop, p_oper, v_oper}
use sem.Bridge.{
  Shared, Place, arrive, add, store_more, store_less, added, queue, permitted, cross, subtract,
  choose, give_ship, give_car, leave_shared, leave_bridge, gone, exited, car, ship, bridge,
  shrd_var, is_car, car_method, ship_method, num_of_semaphors, method, resume,
}
use sem.Bridge.Invariant.Counts.{Inv, Reads}
use sem.Bridge.Invariant.Steps.{Sums, sums, Balance, choose-Inv, took-Inv, gave-Inv}

module _ {semop : Semop} (law : IsSemop num_of_semaphors semop) (n : ℕ) (s : State Shared Place)
    (i : ℕ) (s' : Shared) (p' : Place) (inv : Inv n s) where
  free :
      (s.shared.sems shrd_var ≤ 1)
      × (s.shared.sems bridge ≤ 1)
      × (s.shared.sems car ≤ 1)
      × (s.shared.sems ship ≤ 1)
  free = omega arith

  abbrev target : State Shared Place
  target = record { shared = s'; place = update s.place i p' }

  took :
      (k : ℕ) (p q : Place)
      → k < num_of_semaphors
      → Balance i k p q
      → Sums n s i p' p
      → resume s.shared (p_oper semop s.shared.sems k (pos 1)) q ≡ some (s', p')
      → Inv n target
  took = took-Inv law n s i s' p' inv

  gave :
      (k : ℕ) (p q : Place)
      → k < num_of_semaphors
      → s.shared.sems k ≤ 1
      → Balance i k q p
      → Sums n s i p' p
      → resume s.shared (v_oper semop s.shared.sems k (pos 1)) q ≡ some (s', p')
      → Inv n target
  gave = gave-Inv law n s i s' p' inv

  car_method-Inv :
      (p : Place)
      → is_car i ≡ true
      → Reads s.shared i p
      → Sums n s i p' p
      → car_method semop s.shared p ≡ some (s', p')
      → Inv n target
  unfolding car_method
  car_method-Inv arrive is reads f e = took shrd_var arrive add (omega arith) (ground arith) f e
  car_method-Inv add is reads f e = ground arith
  car_method-Inv (store_more x) is reads f e =
      let same : x ≡ s.shared.shm.num_of_waiting_cars = rw is at reads in ground arith
  car_method-Inv added is reads f e =
      gave shrd_var added queue (omega arith) free.0 (ground arith) f e
  car_method-Inv queue is reads f e = took car queue permitted (omega arith) (ground arith) f e
  car_method-Inv permitted is reads f e =
      took bridge permitted cross (omega arith) (ground arith) f e
  car_method-Inv cross is reads f e = took shrd_var cross subtract (omega arith) (ground arith) f e
  car_method-Inv subtract is reads f e = ground arith
  car_method-Inv (store_less x) is reads f e =
      let same : x ≡ s.shared.shm.num_of_waiting_cars = rw is at reads in ground arith
  car_method-Inv choose is reads f e = choose-Inv law n s i s' p' inv f e
  car_method-Inv give_ship is reads f e =
      gave ship give_ship leave_shared (omega arith) free.3 (ground arith) f e
  car_method-Inv give_car is reads f e =
      gave car give_car leave_shared (omega arith) free.2 (ground arith) f e
  car_method-Inv leave_shared is reads f e =
      gave shrd_var leave_shared leave_bridge (omega arith) free.0 (ground arith) f e
  car_method-Inv leave_bridge is reads f e =
      gave bridge leave_bridge gone (omega arith) free.1 (ground arith) f e
  car_method-Inv gone is reads f e = cc
  car_method-Inv exited is reads f e = cc

  ship_method-Inv :
      (p : Place)
      → is_car i ≡ false
      → Reads s.shared i p
      → Sums n s i p' p
      → ship_method semop s.shared p ≡ some (s', p')
      → Inv n target
  unfolding ship_method
  ship_method-Inv arrive is reads f e = took shrd_var arrive add (omega arith) (ground arith) f e
  ship_method-Inv add is reads f e = ground arith
  ship_method-Inv (store_more x) is reads f e =
      let same : x ≡ s.shared.shm.num_of_waiting_ships = rw is at reads in ground arith
  ship_method-Inv added is reads f e =
      gave shrd_var added queue (omega arith) free.0 (ground arith) f e
  ship_method-Inv queue is reads f e = took ship queue permitted (omega arith) (ground arith) f e
  ship_method-Inv permitted is reads f e =
      took bridge permitted cross (omega arith) (ground arith) f e
  ship_method-Inv cross is reads f e = took shrd_var cross subtract (omega arith) (ground arith) f e
  ship_method-Inv subtract is reads f e = ground arith
  ship_method-Inv (store_less x) is reads f e =
      let same : x ≡ s.shared.shm.num_of_waiting_ships = rw is at reads in ground arith
  ship_method-Inv choose is reads f e = choose-Inv law n s i s' p' inv f e
  ship_method-Inv give_ship is reads f e =
      gave ship give_ship leave_shared (omega arith) free.3 (ground arith) f e
  ship_method-Inv give_car is reads f e =
      gave car give_car leave_shared (omega arith) free.2 (ground arith) f e
  ship_method-Inv leave_shared is reads f e =
      gave shrd_var leave_shared leave_bridge (omega arith) free.0 (ground arith) f e
  ship_method-Inv leave_bridge is reads f e =
      gave bridge leave_bridge gone (omega arith) free.1 (ground arith) f e
  ship_method-Inv gone is reads f e = cc
  ship_method-Inv exited is reads f e = cc

  -- A step of any process keeps the invariant.
  pub method-Inv :
      i < n
      → Reads s.shared i (s.place i)
      → method semop i s.shared (s.place i) ≡ some (s', p')
      → Inv n target
  method-Inv lt reads e = elim (Bool-cases (is_car i)) [
    | inl is ↦ car_method-Inv (s.place i) is reads (sums n s i p' lt) (rw is at e)
    | inr is ↦ ship_method-Inv (s.place i) is reads (sums n s i p' lt) (rw is at e)
  ]
