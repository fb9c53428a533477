-- ===== src/Bridge/Invariant/Steps.antt =====
-- A step of process `i` keeps the invariant.
use sem.Prelude.{
  ℕ, ◌+◌, ◌<◌, ◌≤◌, ◌≡◌, arith, total, total-update, total-le, le-total, update, some, Bool-cases,
  ◌⊎◌, inl, inr, subst, sym, ap, ◌==◌, if◌then◌else◌,
}
use sem.Prelude.Int.{pos}
use sem.Process.{State}
use sem.Sems.{Semop, IsSemop, p_oper, v_oper}
use sem.Sems.Laws.{p_oper_takes, v_oper_adds}
use sem.Bridge.{
  Shared, Place, choose, give_ship, give_car, car, ship, bridge, shrd_var, is_car, num_of_semaphors,
  pass_on, open_cond, close_cond, resume, BridgeOrgnz,
}
use sem.Bridge.Invariant.Counts.{
  in_shared, on_bridge, car_permit, ship_claim, ship_chooses, car_waiting, ship_waiting, has_exited,
  Inv,
}

module _ (n : ℕ) (s : State Shared Place) (i : ℕ) (p' : Place) where
  abbrev pub moved : ℕ → Place
  moved = update s.place i p'

  abbrev pub Sum : (ℕ → Place → ℕ) → Place → Type 0
  Sum w p = total w n moved + w i p ≡ total w n s.place + w i p'

  pub record Sums (p : Place) : Type 0 where
    pub shared_sum : Sum in_shared p
    pub bridge_sum : Sum on_bridge p
    pub car_permit_sum : Sum car_permit p
    pub ship_claim_sum : Sum ship_claim p
    pub ship_chooses_sum : Sum ship_chooses p
    pub car_waiting_sum : Sum car_waiting p
    pub ship_waiting_sum : Sum ship_waiting p
    pub exited_sum : Sum has_exited p
    pub car_permit_counts : car_permit i p ≤ total car_permit n s.place
    pub ship_chooses_counts : ship_chooses i p ≤ total ship_chooses n s.place
    pub cars_fit : total car_waiting n moved ≤ n
    pub ships_fit : total ship_waiting n moved ≤ n

  pub sums : i < n → Sums (s.place i)
  sums lt = record {
    shared_sum = total-update in_shared n s.place i p' lt;
    bridge_sum = total-update on_bridge n s.place i p' lt;
    car_permit_sum = total-update car_permit n s.place i p' lt;
    ship_claim_sum = total-update ship_claim n s.place i p' lt;
    ship_chooses_sum = total-update ship_chooses n s.place i p' lt;
    car_waiting_sum = total-update car_waiting n s.place i p' lt;
    ship_waiting_sum = total-update ship_waiting n s.place i p' lt;
    exited_sum = total-update has_exited n s.place i p' lt;
    car_permit_counts = le-total car_permit n s.place i lt;
    ship_chooses_counts = le-total ship_chooses n s.place i lt;
    cars_fit = total-le car_waiting n moved (λ j p. ground arith);
    ships_fit = total-le ship_waiting n moved (λ j p. ground arith);
  }

-- After the test the bridge stands right for whoever gets the permission.
pass_on_lem :
    (s : Shared) {s' : Shared} {p : Place}
    → s.shm.bridge_cond ≤ 1
    → pass_on s ≡ some (s', p)
    → (s'.sems ≡ s.sems)
      × (s'.shm.num_of_waiting_cars ≡ s.shm.num_of_waiting_cars)
      × (s'.shm.num_of_waiting_ships ≡ s.shm.num_of_waiting_ships)
      × (((p ≡ give_ship) × (s'.shm.bridge_cond ≡ open_cond) × (0 < s.shm.num_of_waiting_ships))
          ⊎ ((p ≡ give_car) × (s'.shm.bridge_cond ≡ close_cond)))
pass_on_lem s known e = ground arith

-- A process at `q` holds what it holds at `p`, and one of the semaphore `k`.
abbrev pub unit : ℕ → ℕ → ℕ
unit k j = if k == j then 1 else 0

pub record Balance (i k : ℕ) (p q : Place) : Type 0 where
  pub access_more : in_shared i q ≡ in_shared i p + unit k shrd_var
  pub bridge_more : on_bridge i q ≡ on_bridge i p + unit k bridge
  pub car_more : car_permit i q ≡ car_permit i p + unit k car
  pub ship_more : ship_claim i q ≡ ship_claim i p + unit k ship
  pub chooses_same : ship_chooses i q ≡ ship_chooses i p
  pub cars_same : car_waiting i q ≡ car_waiting i p
  pub ships_same : ship_waiting i q ≡ ship_waiting i p
  pub exited_same : has_exited i q ≡ has_exited i p

module _ {semop : Semop} (law : IsSemop num_of_semaphors semop) (s s' : Shared) (p' : Place) where
  took_lem :
      (k : ℕ) (q : Place)
      → k < num_of_semaphors
      → resume s (p_oper semop s.sems k (pos 1)) q ≡ some (s', p')
      → ((j : ℕ) → s'.sems j + unit k j ≡ s.sems j) × (s'.shm ≡ s.shm) × (p' ≡ q)
  took_lem k q lt e = (
    λ j. ground (arith, p_oper_takes law s.sems k 1),
    ground (arith, p_oper_takes law s.sems k 1),
    ground (arith, p_oper_takes law s.sems k 1),
  )

  gave_lem :
      (k : ℕ) (q : Place)
      → k < num_of_semaphors
      → s.sems k ≤ 1
      → resume s (v_oper semop s.sems k (pos 1)) q ≡ some (s', p')
      → ((j : ℕ) → s'.sems j ≡ s.sems j + unit k j) × (s'.shm ≡ s.shm) × (p' ≡ q)
  gave_lem k q lt low e = (
    λ j. ground (arith, v_oper_adds law s.sems k 1),
    ground (arith, v_oper_adds law s.sems k 1),
    ground (arith, v_oper_adds law s.sems k 1),
  )

module _ {semop : Semop} (law : IsSemop num_of_semaphors semop) (n : ℕ) (s : State Shared Place)
    (i : ℕ) (s' : Shared) (p' : Place) (inv : Inv n s) where
  abbrev pub after : State Shared Place
  after = record { shared = s'; place = update s.place i p' }

  pub choose-Inv : Sums n s i p' choose → pass_on s.shared ≡ some (s', p') → Inv n after
  choose-Inv f e =
      let (sems, cars, ships, next) = pass_on_lem s.shared (omega arith) e in
      elim (Bool-cases (is_car i)) [
        | inl is ↦ elim next [ inl side ↦ ground arith | inr side ↦ ground arith ]
        | inr is ↦ elim next [ inl side ↦ ground arith | inr side ↦ ground arith ]
      ]

  pub took-Inv :
      (k : ℕ) (p q : Place)
      → k < num_of_semaphors
      → Balance i k p q
      → Sums n s i p' p
      → resume s.shared (p_oper semop s.shared.sems k (pos 1)) q ≡ some (s', p')
      → Inv n after
  took-Inv k p q lt b f e =
      let (v, shm, at) = took_lem law s.shared s' p' k q lt e in
      let b' : Balance i k p p' = subst (λ x. Balance i k p x) (sym at) b in
      let shm_cond = ap (λ (m : BridgeOrgnz). m.bridge_cond) shm in
      let shm_cars = ap (λ (m : BridgeOrgnz). m.num_of_waiting_cars) shm in
      let shm_ships = ap (λ (m : BridgeOrgnz). m.num_of_waiting_ships) shm in
      omega (arith, v shrd_var, v bridge, v car, v ship)

  pub gave-Inv :
      (k : ℕ) (p q : Place)
      → k < num_of_semaphors
      → s.shared.sems k ≤ 1
      → Balance i k q p
      → Sums n s i p' p
      → resume s.shared (v_oper semop s.shared.sems k (pos 1)) q ≡ some (s', p')
      → Inv n after
  gave-Inv k p q lt low b f e =
      let (v, shm, at) = gave_lem law s.shared s' p' k q lt low e in
      let b' : Balance i k p' p = subst (λ x. Balance i k x p) (sym at) b in
      let shm_cond = ap (λ (m : BridgeOrgnz). m.bridge_cond) shm in
      let shm_cars = ap (λ (m : BridgeOrgnz). m.num_of_waiting_cars) shm in
      let shm_ships = ap (λ (m : BridgeOrgnz). m.num_of_waiting_ships) shm in
      omega (arith, v shrd_var, v bridge, v car, v ship)
