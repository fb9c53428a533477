-- ===== src/Bridge/Progress.antt =====
-- When the processes of bridge.c can go on.
use sem.Prelude.{
  ℕ, ◌+◌, ◌^◌, ◌<◌, ◌≤◌, ◌≡◌, ◌≢◌, refl, arith, total, total-pos, le-total, some, true, false,
  Bool-cases, inl, inr, dec_lt,
}
use sem.Process.{State, Reach}
use sem.Sems.{Semop, IsSemop}
use sem.Bridge.{
  Shared, Place, arrive, add, queue, permitted, cross, choose, gone, is_car, num_of_semaphors,
  method, init, children, car_method, ship_method, shrd_var, bridge, car, ship,
}
use sem.Bridge.Invariant.{
  Inv, in_shared, on_bridge, car_permit, ship_claim, ship_chooses, ship_waiting, has_exited,
}
use sem.Bridge.Safety.{Reach-Inv, fresh}
use sem.Bridge.Moves.{Result, takes, car_in_shared, car_on_bridge, ship_in_shared, ship_on_bridge}

module _ {semop : Semop} (law : IsSemop num_of_semaphors semop) (n : ℕ) (s : State Shared Place)
    (inv : Inv n s) where
  -- Process `i` can take a step.
  abbrev pub Enabled : ℕ → Type 0
  Enabled i = (t : Shared × Place) × (method semop i s.shared (s.place i) ≡ some t)

  either :
      (i : ℕ)
      → Result (car_method semop s.shared (s.place i))
      → Result (ship_method semop s.shared (s.place i))
      → Enabled i
  either i as_car as_ship = elim (Bool-cases (is_car i)) [
    | inl is ↦ rw is as_car
    | inr is ↦ rw is as_ship
  ]

  -- Off the bridge and away from `shm_struct`, who has a permission enters the bridge.
  car_enters :
      (i : ℕ) (p : Place)
      → 1 ≤ s.shared.sems bridge
      → on_bridge i p ≡ 0
      → 0 < car_permit i p + ship_claim i p
      → Result (car_method semop s.shared p) × Result (ship_method semop s.shared p)
  unfolding car_method ship_method
  car_enters i permitted free off has = (
    takes law n s inv bridge cross (omega arith) free,
    takes law n s inv bridge cross (omega arith) free,
  )
  car_enters i p free off has = absurd (ground arith)

  -- A ship that waits and has no permission takes law n s inv it.
  ship_leaves_queue :
      (i : ℕ) (p : Place)
      → 1 ≤ s.shared.sems ship
      → in_shared i p ≡ 0
      → ship_claim i p ≡ 0
      → 0 < ship_waiting i p
      → Result (ship_method semop s.shared p)
  unfolding ship_method
  ship_leaves_queue i queue free out unserved waits =
      takes law n s inv ship permitted (omega arith) free
  ship_leaves_queue i p free out unserved waits = absurd (ground arith)

  ship_waits : (i : ℕ) (p : Place) → 0 < ship_waiting i p → is_car i ≡ false
  ship_waits i p waits = ground arith

  -- A car on its own arrives, or takes law n s inv the permission.
  car_goes :
      (i : ℕ) (p : Place)
      → is_car i ≡ true
      → 1 ≤ s.shared.sems shrd_var
      → 1 ≤ s.shared.sems car
      → on_bridge i p ≡ 0
      → in_shared i p ≡ 0
      → car_permit i p ≡ 0
      → has_exited i p ≡ 0
      → p ≢ gone
      → Result (car_method semop s.shared p)
  unfolding car_method
  car_goes i arrive is free permit off out unpermitted alive unfinished =
      takes law n s inv shrd_var add (omega arith) free
  car_goes i queue is free permit off out unpermitted alive unfinished =
      takes law n s inv car permitted (omega arith) permit
  car_goes i gone is free permit off out unpermitted alive unfinished = absurd (unfinished refl)
  car_goes i p is free permit off out unpermitted alive unfinished = absurd (ground arith)

  none_of : (w : ℕ → Place → ℕ) (i : ℕ) → i < n → total w n s.place ≡ 0 → w i (s.place i) ≡ 0
  none_of w i lt zero_sum = omega (arith, le-total w n s.place i lt)

  chooses_in_shared : (i : ℕ) (p : Place) → 0 < ship_chooses i p → 0 < in_shared i p
  chooses_in_shared i choose h = omega arith
  chooses_in_shared i p h = absurd (ground arith)

  abbrev pub Someone : Type 0
  Someone = (i : ℕ) × (i < n) × Enabled i

  no_permit_given :
      (c : ℕ)
      → c < n
      → is_car c ≡ true
      → s.place c ≢ gone
      → total in_shared n s.place ≡ 0
      → total on_bridge n s.place ≡ 0
      → total car_permit n s.place ≡ 0
      → total ship_claim n s.place ≡ 0
      → total ship_chooses n s.place ≡ 0
      → Someone
  no_permit_given c lt is unfinished out off no_car no_ship no_choice =
      elim (dec_lt 0 (s.shared.sems ship)) [
        | yes raised ↦
            let (i, i_in, w) = total-pos ship_waiting n s.place (omega arith) in
            let goes =
              ship_leaves_queue i (s.place i) raised (none_of in_shared i i_in out)
                (none_of ship_claim i i_in no_ship) w in
            (i, i_in, rw (ship_waits i (s.place i) w) goes)
        | no lowered ↦
            let goes =
              car_goes c (s.place c) is (omega arith) (omega arith) (none_of on_bridge c lt off)
                (none_of in_shared c lt out) (none_of car_permit c lt no_car)
                (none_of has_exited c lt inv.alive) unfinished in
            (c, lt, rw is goes)
      ]

  enters :
      (i : ℕ)
      → i < n
      → total in_shared n s.place ≡ 0
      → total on_bridge n s.place ≡ 0
      → 0 < car_permit i (s.place i) + ship_claim i (s.place i)
      → Someone
  enters i lt out off w =
      let (as_car, as_ship) =
        car_enters i (s.place i) (omega arith) (none_of on_bridge i lt off) w in
      (i, lt, either i as_car as_ship)

  holders :
      (c : ℕ)
      → c < n
      → is_car c ≡ true
      → s.place c ≢ gone
      → total in_shared n s.place ≡ 0
      → total on_bridge n s.place ≡ 0
      → Someone
  holders c lt is unfinished out off = elim (dec_lt 0 (total car_permit n s.place)) [
    | yes some_car ↦
        let (i, i_in, w) = total-pos car_permit n s.place some_car in
        enters i i_in out off (omega arith)
    | no no_car ↦ elim (dec_lt 0 (total ship_claim n s.place)) [
      | yes some_ship ↦
          let (i, i_in, w) = total-pos ship_claim n s.place some_ship in
          enters i i_in out off (omega arith)
      | no no_ship ↦ elim (dec_lt 0 (total ship_chooses n s.place)) [
        | yes chooser ↦
            let (i, i_in, w) = total-pos ship_chooses n s.place chooser in
            absurd (omega (arith, none_of in_shared i i_in out, chooses_in_shared i (s.place i) w))
        | no no_choice ↦
            no_permit_given c lt is unfinished out off (omega arith) (omega arith) (omega arith)
      ]
    ]
  ]

  car_unfinished_moves : (c : ℕ) → c < n → is_car c ≡ true → s.place c ≢ gone → Someone
  car_unfinished_moves c lt is unfinished = elim (dec_lt 0 (total in_shared n s.place)) [
    | yes busy ↦
        let (i, i_in, w) = total-pos in_shared n s.place busy in
        (
          i,
          i_in,
          either i (car_in_shared law n s inv i (s.place i) w)
              (ship_in_shared law n s inv i (s.place i) w),
        )
    | no quiet ↦ elim (dec_lt 0 (total on_bridge n s.place)) [
      | yes busy ↦
          let (i, i_in, w) = total-pos on_bridge n s.place busy in
          (
            i,
            i_in,
            either i (car_on_bridge law n s inv i (s.place i) (omega arith) w)
                (ship_on_bridge law n s inv i (s.place i) (omega arith) w),
          )
      | no clear ↦ holders c lt is unfinished (omega arith) (omega arith)
    ]
  ]

module _ {semop : Semop} (law : IsSemop num_of_semaphors semop) (n : ℕ) (z : Shared)
    (few : n < 2 ^ 32) (started : init semop fresh ≡ some z) (s : State Shared Place)
    (r : Reach (method semop) n (children z) s) where
  -- While some car has not crossed, there is a process that can take a step.
  pub car_unfinished_progress :
      (c : ℕ)
      → c < n
      → is_car c ≡ true
      → s.place c ≢ gone
      → (i : ℕ) × (i < n) × ((t : Shared × Place) × (method semop i s.shared (s.place i) ≡ some t))
  car_unfinished_progress c lt is unfinished =
      car_unfinished_moves law n s (Reach-Inv law n z few started r) c lt is unfinished
