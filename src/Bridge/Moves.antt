-- ===== src/Bridge/Moves.antt =====
-- What a car or a ship of bridge.c can do on the bridge and at shared memory.
use sem.Prelude.{ℕ, ◌<◌, ◌≤◌, ◌≡◌, refl, ap, arith, some, Bool, Bool-cases, inl, inr, if◌then◌else◌}
use sem.Prelude.Int.{pos}
use sem.Process.{State}
use sem.Sems.{Semop, IsSemop, p_oper, v_oper}
use sem.Sems.Laws.{p_oper_one, v_oper_one}
use sem.Bridge.{
  Shared, Place, add, store_more, store_less, added, queue, cross, subtract, choose, give_ship,
  give_car, leave_shared, leave_bridge, gone, num_of_semaphors, resume, car_method, ship_method,
  Turn, ships_turn, raise, lower, pass_on, shrd_var, bridge, car, ship,
}
use sem.Bridge.Invariant.{Inv, in_shared, on_bridge}

-- A turn that is not waiting.
abbrev pub Result : Turn → Type 0
Result m = (t : Shared × Place) × (m ≡ some t)

module _ {semop : Semop} (law : IsSemop num_of_semaphors semop) (n : ℕ) (s : State Shared Place)
    (inv : Inv n s) where
  pub takes :
      (k : ℕ) (q : Place)
      → k < num_of_semaphors
      → 1 ≤ s.shared.sems k
      → Result (resume s.shared (p_oper semop s.shared.sems k (pos 1)) q)
  takes k q lt has = (_, ap (λ o. resume s.shared o q) (p_oper_one law s.shared.sems k lt has))

  gives :
      (k : ℕ) (q : Place)
      → k < num_of_semaphors
      → s.shared.sems k ≤ 1
      → Result (resume s.shared (v_oper semop s.shared.sems k (pos 1)) q)
  gives k q lt has =
      (_, ap (λ o. resume s.shared o q) (v_oper_one law s.shared.sems k lt (omega arith)))

  pass_on_moves : Result (pass_on s.shared)
  pass_on_moves = elim (Bool-cases (ships_turn s.shared.shm)) [
    | inl e ↦ (_, ap choice e)
    | inr e ↦ (_, ap choice e)
  ]
    where
      choice : Bool → Turn
      choice b =
          if b
          then some (record (s.shared) { shm = raise s.shared.shm }, give_ship)
          else some (record (s.shared) { shm = lower s.shared.shm }, give_car)

  pub car_in_shared : (i : ℕ) (p : Place) → 0 < in_shared i p → Result (car_method semop s.shared p)
  unfolding car_method
  car_in_shared i add busy = (_, refl)
  car_in_shared i (store_more x) busy = (_, refl)
  car_in_shared i added busy = gives shrd_var queue (omega arith) (omega arith)
  car_in_shared i subtract busy = (_, refl)
  car_in_shared i (store_less x) busy = (_, refl)
  car_in_shared i choose busy = pass_on_moves
  car_in_shared i give_ship busy = gives ship leave_shared (omega arith) (omega arith)
  car_in_shared i give_car busy = gives car leave_shared (omega arith) (omega arith)
  car_in_shared i leave_shared busy = gives shrd_var leave_bridge (omega arith) (omega arith)
  car_in_shared i p busy = absurd (omega arith)

  pub car_on_bridge :
      (i : ℕ) (p : Place)
      → 1 ≤ s.shared.sems shrd_var
      → 0 < on_bridge i p
      → Result (car_method semop s.shared p)
  unfolding car_method
  car_on_bridge i cross free busy = takes shrd_var subtract (omega arith) free
  car_on_bridge i leave_bridge free busy = gives bridge gone (omega arith) (omega arith)
  car_on_bridge i subtract free busy = car_in_shared i subtract (omega arith)
  car_on_bridge i (store_less x) free busy = car_in_shared i (store_less x) (omega arith)
  car_on_bridge i choose free busy = car_in_shared i choose (omega arith)
  car_on_bridge i give_ship free busy = car_in_shared i give_ship (omega arith)
  car_on_bridge i give_car free busy = car_in_shared i give_car (omega arith)
  car_on_bridge i leave_shared free busy = car_in_shared i leave_shared (omega arith)
  car_on_bridge i p free busy = absurd (omega arith)

  pub ship_in_shared :
      (i : ℕ) (p : Place) → 0 < in_shared i p → Result (ship_method semop s.shared p)
  unfolding ship_method
  ship_in_shared i add busy = (_, refl)
  ship_in_shared i (store_more x) busy = (_, refl)
  ship_in_shared i added busy = gives shrd_var queue (omega arith) (omega arith)
  ship_in_shared i subtract busy = (_, refl)
  ship_in_shared i (store_less x) busy = (_, refl)
  ship_in_shared i choose busy = pass_on_moves
  ship_in_shared i give_ship busy = gives ship leave_shared (omega arith) (omega arith)
  ship_in_shared i give_car busy = gives car leave_shared (omega arith) (omega arith)
  ship_in_shared i leave_shared busy = gives shrd_var leave_bridge (omega arith) (omega arith)
  ship_in_shared i p busy = absurd (omega arith)

  pub ship_on_bridge :
      (i : ℕ) (p : Place)
      → 1 ≤ s.shared.sems shrd_var
      → 0 < on_bridge i p
      → Result (ship_method semop s.shared p)
  unfolding ship_method
  ship_on_bridge i cross free busy = takes shrd_var subtract (omega arith) free
  ship_on_bridge i leave_bridge free busy = gives bridge gone (omega arith) (omega arith)
  ship_on_bridge i subtract free busy = ship_in_shared i subtract (omega arith)
  ship_on_bridge i (store_less x) free busy = ship_in_shared i (store_less x) (omega arith)
  ship_on_bridge i choose free busy = ship_in_shared i choose (omega arith)
  ship_on_bridge i give_ship free busy = ship_in_shared i give_ship (omega arith)
  ship_on_bridge i give_car free busy = ship_in_shared i give_car (omega arith)
  ship_on_bridge i leave_shared free busy = ship_in_shared i leave_shared (omega arith)
  ship_on_bridge i p free busy = absurd (omega arith)
