-- ===== src/Bridge/Invariant/Counts.antt =====
-- What each process counts for, by its place, and the invariant over the sums.
use sem.Prelude.{ℕ, ◌+◌, ◌^◌, ◌<◌, ◌≤◌, ◌≡◌, total, if◌then◌else◌}
use sem.Process.{State}
use sem.Bridge.{
  Shared, Place, add, store_more, store_less, added, queue, permitted, cross, subtract, choose,
  give_ship, give_car, leave_shared, leave_bridge, exited, car, ship, bridge, shrd_var, is_car,
}

-- Between P(SHRD_VAR) and V(SHRD_VAR).
abbrev pub in_shared : ℕ → Place → ℕ
in_shared i add = 1
in_shared i (store_more x) = 1
in_shared i added = 1
in_shared i subtract = 1
in_shared i (store_less x) = 1
in_shared i choose = 1
in_shared i give_ship = 1
in_shared i give_car = 1
in_shared i leave_shared = 1
in_shared i _ = 0

-- Between P(BRIDGE) and V(BRIDGE).
abbrev pub on_bridge : ℕ → Place → ℕ
on_bridge i cross = 1
on_bridge i subtract = 1
on_bridge i (store_less x) = 1
on_bridge i choose = 1
on_bridge i give_ship = 1
on_bridge i give_car = 1
on_bridge i leave_shared = 1
on_bridge i leave_bridge = 1
on_bridge i _ = 0

-- Holds a permission that it has not yet passed on.
abbrev pub permit : Place → ℕ
permit permitted = 1
permit cross = 1
permit subtract = 1
permit (store_less x) = 1
permit choose = 1
permit _ = 0

-- Has been counted as waiting, and is still.
abbrev pub waiting : Place → ℕ
waiting added = 1
waiting queue = 1
waiting permitted = 1
waiting cross = 1
waiting subtract = 1
waiting (store_less x) = 1
waiting _ = 0

-- The same, before the test.
abbrev pub claim : Place → ℕ
claim permitted = 1
claim cross = 1
claim subtract = 1
claim (store_less x) = 1
claim _ = 0

abbrev pub choosing : Place → ℕ
choosing choose = 1
choosing _ = 0

abbrev pub giving_car : Place → ℕ
giving_car give_car = 1
giving_car _ = 0

abbrev pub giving_ship : Place → ℕ
giving_ship give_ship = 1
giving_ship _ = 0

-- The permission for cars is with a car, or about to be given to one.
abbrev pub car_permit : ℕ → Place → ℕ
car_permit i p = (if is_car i then permit p else 0) + giving_car p

-- The permission for ships is with a ship before the test, or about to be given to one.
abbrev pub ship_claim : ℕ → Place → ℕ
ship_claim i p = (if is_car i then 0 else claim p) + giving_ship p

abbrev pub ship_chooses : ℕ → Place → ℕ
ship_chooses i p = if is_car i then 0 else choosing p

abbrev pub car_waiting : ℕ → Place → ℕ
car_waiting i p = if is_car i then waiting p else 0

abbrev pub ship_waiting : ℕ → Place → ℕ
ship_waiting i p = if is_car i then 0 else waiting p

abbrev pub has_exited : ℕ → Place → ℕ
has_exited i exited = 1
has_exited i _ = 0

-- The number that a process is about to write has been read from shared memory as it is.
abbrev pub Reads : Shared → ℕ → Place → Type 0
Reads s i (store_more x) =
    x ≡ (if is_car i then s.shm.num_of_waiting_cars else s.shm.num_of_waiting_ships)
Reads s i (store_less x) =
    x ≡ (if is_car i then s.shm.num_of_waiting_cars else s.shm.num_of_waiting_ships)
Reads s i p = Unit

module _ (n : ℕ) (s : State Shared Place) where
  pub record Inv : Type 0 where
    pub few : n < 2 ^ 32
    pub access : s.shared.sems shrd_var + total in_shared n s.place ≡ 1
    pub crossing : s.shared.sems bridge + total on_bridge n s.place ≡ 1
    pub cars_turn : s.shared.sems car + total car_permit n s.place + s.shared.shm.bridge_cond ≡ 1
    pub ships_turn :
        s.shared.sems ship + total ship_claim n s.place + total ship_chooses n s.place
        ≡ s.shared.shm.bridge_cond
    pub wanted : s.shared.sems ship + total ship_claim n s.place ≤ total ship_waiting n s.place
    pub cars : s.shared.shm.num_of_waiting_cars ≡ total car_waiting n s.place
    pub ships : s.shared.shm.num_of_waiting_ships ≡ total ship_waiting n s.place
    pub alive : total has_exited n s.place ≡ 0

  pub record Held : Type 0 where
    pub counts : Inv
    pub reads : (j : ℕ) → j < n → Reads s.shared j (s.place j)
