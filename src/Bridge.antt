-- ===== src/Bridge.antt =====
-- semaphs_tasks/bridge_simulator/bridge.c and semaphs.h: cars and ships share a drawbridge.
-- A process stands at a place in its function. A semaphore operation is a step of its own, and so is
-- the part of the code between two of them that decides who goes next; `++` and `--` on the numbers in
-- `shm_struct` are two steps each, a read and a write.
pub mod Invariant
mod Tests
pub mod Safety
pub mod Main
pub mod Leftovers
pub mod Moves
pub mod Progress
use sem.Prelude.{
  ℕ, ◌+◌, ◌-◌, ◌%◌, ◌^◌, Bool, not, ◌&&◌, ◌||◌, Option, none, some, ltb, ◌==◌, if◌then◌else◌,
}
use sem.Prelude.Int.{pos}
use sem.Process.{State}
use sem.Sems.{Values, Semop, Outcome, next, waits, exits, p_oper, v_oper}

-- `struct Bridge_orgnz`. The two numbers are `unsigned`, 32 bits wide.
pub record BridgeOrgnz : Type 0 where
  pub num_of_waiting_cars : ℕ
  pub num_of_waiting_ships : ℕ
  pub bridge_cond : ℕ

abbrev pub open_cond : ℕ
open_cond = 1

abbrev pub close_cond : ℕ
close_cond = 0

abbrev pub max_num_of_ships : ℕ
max_num_of_ships = 2

abbrev pub num_of_semaphors : ℕ
num_of_semaphors = 4

-- `enum Semaphors`
abbrev pub car : ℕ
car = 0

abbrev pub ship : ℕ
ship = 1

abbrev pub bridge : ℕ
bridge = 2

abbrev pub shrd_var : ℕ
shrd_var = 3

-- `++` and `--` on an `unsigned`
abbrev pub inc_unsigned : ℕ → ℕ
inc_unsigned x = (x + 1) % 2 ^ 32

abbrev pub dec_unsigned : ℕ → ℕ
dec_unsigned x = (x + 2 ^ 32 - 1) % 2 ^ 32

-- What the processes share.
pub record Shared : Type 0 where
  pub sems : Values
  pub shm : BridgeOrgnz

-- Where a process stands in `Car_method` or `Ship_method`: what it does next.
pub data Place : Type 0 where
  arrive : Place  -- P(SHRD_VAR), to be counted
  add : Place  -- `num_of_waiting_…++`: reading the number
  store_more : ℕ → Place  -- and writing it, one more than this
  added : Place  -- V(SHRD_VAR)
  queue : Place  -- P(CAR) or P(SHIP)
  permitted : Place  -- P(BRIDGE)
  cross : Place  -- P(SHRD_VAR), on the bridge
  subtract : Place  -- `num_of_waiting_…--`: reading the number
  store_less : ℕ → Place  -- and writing it, one less than this
  choose : Place  -- the test and the move of the bridge
  give_ship : Place  -- V(SHIP)
  give_car : Place  -- V(CAR)
  leave_shared : Place  -- V(SHRD_VAR)
  leave_bridge : Place  -- V(BRIDGE)
  gone : Place  -- the function has returned
  exited : Place  -- `exit(0)` in a semaphore operation

-- The test on `shm_struct` that decides who may go next.
abbrev pub ships_turn : BridgeOrgnz → Bool
ships_turn shm =
    ltb max_num_of_ships shm.num_of_waiting_ships
    || (shm.num_of_waiting_cars == 0 && not (shm.num_of_waiting_ships == 0))

-- Raising or lowering the bridge, if it is not so already.
abbrev pub raise : BridgeOrgnz → BridgeOrgnz
raise shm = if shm.bridge_cond == close_cond then record shm { bridge_cond = open_cond } else shm

abbrev pub lower : BridgeOrgnz → BridgeOrgnz
lower shm = if shm.bridge_cond == open_cond then record shm { bridge_cond = close_cond } else shm

-- What a process makes of the shared state, and where it stands then. `none` while it waits in a
-- semaphore operation, and after its end.
abbrev pub Turn : Type 0
Turn = Option (Shared × Place)

-- The step of a semaphore operation with the place behind it.
abbrev pub resume : Shared → Outcome → Place → Turn
resume s (next v) p = some (record s { sems = v }, p)
resume s waits p = none
resume s exits p = some (s, exited)

-- The test of both functions: who gets the permission, with the bridge moved for them.
abbrev pub pass_on : Shared → Turn
pass_on s =
    if ships_turn s.shm
    then some (record s { shm = raise s.shm }, give_ship)
    else some (record s { shm = lower s.shm }, give_car)

-- What follows an operation in `Init`; `none` where the operation exits (V never waits).
abbrev pub then_v : Outcome → (Values → Option Shared) → Option Shared
then_v (next v) rest = rest v
then_v waits rest = none
then_v exits rest = none

-- The loop of `main`: the child of an even index is a car, of an odd index a ship.
abbrev pub is_car : ℕ → Bool
is_car index = index % 2 == 0

module _ (semop : Semop) where
  unfoldable pub car_method : Shared → Place → Turn
  car_method s arrive = resume s (p_oper semop s.sems shrd_var (pos 1)) add
  car_method s add = some (s, store_more s.shm.num_of_waiting_cars)
  car_method s (store_more x) =
      let cars = inc_unsigned x in
      some (record s { shm = record (s.shm) { num_of_waiting_cars = cars } }, added)
  car_method s added = resume s (v_oper semop s.sems shrd_var (pos 1)) queue
  car_method s queue = resume s (p_oper semop s.sems car (pos 1)) permitted
  car_method s permitted = resume s (p_oper semop s.sems bridge (pos 1)) cross
  car_method s cross = resume s (p_oper semop s.sems shrd_var (pos 1)) subtract
  car_method s subtract = some (s, store_less s.shm.num_of_waiting_cars)
  car_method s (store_less x) =
      let cars = dec_unsigned x in
      some (record s { shm = record (s.shm) { num_of_waiting_cars = cars } }, choose)
  car_method s choose = pass_on s
  car_method s give_ship = resume s (v_oper semop s.sems ship (pos 1)) leave_shared
  car_method s give_car = resume s (v_oper semop s.sems car (pos 1)) leave_shared
  car_method s leave_shared = resume s (v_oper semop s.sems shrd_var (pos 1)) leave_bridge
  car_method s leave_bridge = resume s (v_oper semop s.sems bridge (pos 1)) gone
  car_method s gone = none
  car_method s exited = none

  unfoldable pub ship_method : Shared → Place → Turn
  ship_method s arrive = resume s (p_oper semop s.sems shrd_var (pos 1)) add
  ship_method s add = some (s, store_more s.shm.num_of_waiting_ships)
  ship_method s (store_more x) =
      let ships = inc_unsigned x in
      some (record s { shm = record (s.shm) { num_of_waiting_ships = ships } }, added)
  ship_method s added = resume s (v_oper semop s.sems shrd_var (pos 1)) queue
  ship_method s queue = resume s (p_oper semop s.sems ship (pos 1)) permitted
  ship_method s permitted = resume s (p_oper semop s.sems bridge (pos 1)) cross
  ship_method s cross = resume s (p_oper semop s.sems shrd_var (pos 1)) subtract
  ship_method s subtract = some (s, store_less s.shm.num_of_waiting_ships)
  ship_method s (store_less x) =
      let ships = dec_unsigned x in
      some (record s { shm = record (s.shm) { num_of_waiting_ships = ships } }, choose)
  ship_method s choose = pass_on s
  ship_method s give_ship = resume s (v_oper semop s.sems ship (pos 1)) leave_shared
  ship_method s give_car = resume s (v_oper semop s.sems car (pos 1)) leave_shared
  ship_method s leave_shared = resume s (v_oper semop s.sems shrd_var (pos 1)) leave_bridge
  ship_method s leave_bridge = resume s (v_oper semop s.sems bridge (pos 1)) gone
  ship_method s gone = none
  ship_method s exited = none

  -- `Init`, on a new set of semaphores.
  unfoldable pub init : Values → Option Shared
  init fresh =
      let shm : BridgeOrgnz = record {
        num_of_waiting_cars = 0;
        num_of_waiting_ships = 0;
        bridge_cond = close_cond;
      } in
      then_v (v_oper semop fresh shrd_var (pos 1)) λ v.
        then_v (v_oper semop v bridge (pos 1))
          λ w. then_v (v_oper semop w car (pos 1)) λ x. some (record { sems = x; shm = shm })

  -- What the child of an index runs.
  abbrev pub method : ℕ → Shared → Place → Turn
  method index s p = if is_car index then car_method s p else ship_method s p

-- The children of `main`'s loop before their first steps.
abbrev pub children : Shared → State Shared Place
children z = record { shared = z; place = λ _. arrive }
