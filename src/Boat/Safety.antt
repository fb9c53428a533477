-- ===== src/Boat/Safety.antt =====
-- How many are on the stair and on the boat, in every order of the steps of the captain and of the
-- passengers.
use sem.Prelude.{
  ℕ, suc, ◌+◌, ◌<◌, ◌≤◌, ◌≡◌, ◌≢◌, refl, arith, total, total-eq-zero, add-le-total, dec_lt, ltb,
  ◌==◌, leb, update, if◌then◌else◌, Bool-cases, inl, inr,
}
use sem.Prelude.Int.{pos}
use sem.Process.{State, Reach, Reach-invariant}
use sem.Sems.{Values, Semop, IsSemop, next, semvmx, v_oper}
use sem.Sems.Laws.{v_oper_adds}
use sem.Boat.{
  Place, stair_removed, Arguments, places_of, method, begin, sems_processing, num_of_semaphors,
  stair_down, start_of_trip, num_on_boat, num_on_stair, end_of_trip, num_on_coast,
}
use sem.Boat.Invariant.{stair, aboard, Inv}
use sem.Boat.Methods.{IsSmall, places_small, method-Inv}

-- The values that the semaphores start with.
abbrev pub first_values : ℕ → ℕ → ℕ → ℕ
first_values places cap_of_stair j =
    if j == num_on_boat
    then places
    else if j == num_on_coast
    then places
    else if j == num_on_stair
    then cap_of_stair
    else if leb j end_of_trip
    then 1
    else 0

module _ {semop : Semop} (law : IsSemop num_of_semaphors semop) (args : Arguments)
    (small : IsSmall args) where
  add_to :
      (v : Values) (k c : ℕ)
      → k < num_of_semaphors
      → 1 ≤ c
      → v k + c ≤ semvmx
      → v_oper semop v k (pos c) ≡ next (update v k (v k + c))
  add_to v k c k_in some_c room = ground (arith, v_oper_adds law v k c)

  -- On new semaphores, and with numbers that they can hold, `Sems_processing` leaves one of STAIR_DOWN,
  -- START_OF_TRIP and END_OF_TRIP each, the capacity of the stair, and on the boat and on the coast the
  -- smaller of the capacity of the boat and the number of passengers; the other semaphores stay 0.
  pub sems_processing_lem :
      (v : Values) × (sems_processing semop
          (λ _. 0)
          args.cap_of_boat
          args.num_of_pass
          args.cap_of_stair
        ≡ next v)
      × ((j : ℕ) → v j ≡ first_values (places_of args) args.cap_of_stair j)
  unfolding sems_processing
  sems_processing_lem = (
    v6,
    rw (one, two, three, four)
        (elim (Bool-cases (ltb args.cap_of_boat args.num_of_pass)) [
          | inl few ↦ rw (few, rw few at five, rw few at six) refl
          | inr many ↦ rw (many, rw many at five, rw many at six) refl
        ]),
    λ j. ground arith,
  )
    where
      v1 : Values
      v1 = update (λ _. 0) stair_down (0 + 1)

      v2 : Values
      v2 = update v1 end_of_trip (v1 end_of_trip + 1)

      v3 : Values
      v3 = update v2 start_of_trip (v2 start_of_trip + 1)

      v4 : Values
      v4 = update v3 num_on_stair (v3 num_on_stair + args.cap_of_stair)

      v5 : Values
      v5 = update v4 num_on_boat (v4 num_on_boat + places_of args)

      v6 : Values
      v6 = update v5 num_on_coast (v5 num_on_coast + places_of args)

      one : v_oper semop (λ _. 0) stair_down (pos 1) ≡ next v1
      one = add_to (λ _. 0) stair_down 1 (omega arith) (omega arith) (omega arith)

      two : v_oper semop v1 end_of_trip (pos 1) ≡ next v2
      two = add_to v1 end_of_trip 1 (omega arith) (omega arith) (omega arith)

      three : v_oper semop v2 start_of_trip (pos 1) ≡ next v3
      three = add_to v2 start_of_trip 1 (omega arith) (omega arith) (omega arith)

      four : v_oper semop v3 num_on_stair (pos args.cap_of_stair) ≡ next v4
      four =
          add_to v3 num_on_stair args.cap_of_stair (omega arith) small.some_stair
            (omega (arith, small.low_stair))

      places_ok : (1 ≤ places_of args) × (places_of args ≤ semvmx)
      places_ok = places_small args small

      five : v_oper semop v4 num_on_boat (pos (places_of args)) ≡ next v5
      five =
          add_to v4 num_on_boat (places_of args) (omega arith) places_ok.0
            (omega (arith, places_ok.1))

      six : v_oper semop v5 num_on_coast (pos (places_of args)) ≡ next v6
      six =
          add_to v5 num_on_coast (places_of args) (omega arith) places_ok.0
            (omega (arith, places_ok.1))

  module _ (v : Values)
      (ready : sems_processing semop (λ _. 0) args.cap_of_boat args.num_of_pass args.cap_of_stair
        ≡ next v)
      (s : State Values Place)
      (r : Reach (method semop args) (suc args.num_of_pass) (begin v) s) where
    pub prepared : (j : ℕ) → v j ≡ first_values (places_of args) args.cap_of_stair j
    prepared =
        let (w, e, h) = sems_processing_lem in
        let same : v ≡ w = ground (arith, ready, e) in rw same h

    begin-Inv : Inv (suc args.num_of_pass) args.cap_of_stair (places_of args) (begin v)
    begin-Inv = record {
      on_stair = omega (
        arith,
        prepared num_on_stair,
        total-eq-zero (stair args.cap_of_stair) (suc args.num_of_pass) (begin v).place
            (λ i lt. ground arith),
      );
      on_boat = omega (
        arith,
        prepared num_on_boat,
        total-eq-zero aboard (suc args.num_of_pass) (begin v).place (λ i lt. ground arith),
      );
    }

    Reach-Inv : Inv (suc args.num_of_pass) args.cap_of_stair (places_of args) s
    Reach-Inv =
        Reach-invariant (method semop args)
          (Inv (suc args.num_of_pass) args.cap_of_stair (places_of args)) begin-Inv
          (λ x i w q lt inv e. method-Inv law args small (suc args.num_of_pass) x i w q lt inv e) r

    -- With at least one passenger, one place on the boat and one on the stair, no more passengers and no
    -- larger stair than a semaphore can count (32767), and semaphores that `Sems_processing` has set
    -- up, in every state: NUM_ON_STAIR and the places
    -- taken on the stair, all of them by the captain while he removes it, add up to the capacity of the
    -- stair; NUM_ON_BOAT and the passengers who have booked a place on the boat and not given it back
    -- add up to the smaller of the capacity of the boat and the number of passengers.
    pub places_exact :
        (s.shared num_on_stair + total (stair args.cap_of_stair) (suc args.num_of_pass) s.place
          ≡ args.cap_of_stair)
        × (s.shared num_on_boat + total aboard (suc args.num_of_pass) s.place ≡ places_of args)
    places_exact = (Reach-Inv.on_stair, Reach-Inv.on_boat)

    -- With such numbers, and semaphores that `Sems_processing` has set up: while the captain has removed the stair, no
    -- passenger is on it.
    pub stair_empty :
        (i j k : ℕ)
        → i < suc args.num_of_pass
        → j < suc args.num_of_pass
        → j ≢ i
        → s.place i ≡ stair_removed k
        → stair args.cap_of_stair j (s.place j) ≡ 0
    stair_empty i j k i_in j_in apart at =
        let all : stair args.cap_of_stair i (s.place i) ≡ args.cap_of_stair = rw at refl in
        elim (dec_lt i j) [
          | yes below ↦ omega (
            arith,
            Reach-Inv.on_stair,
            all,
            add-le-total (stair args.cap_of_stair) (suc args.num_of_pass) s.place i j below j_in,
          )
          | no above ↦ omega (
            arith,
            Reach-Inv.on_stair,
            all,
            add-le-total (stair args.cap_of_stair) (suc args.num_of_pass) s.place j i (omega arith)
                i_in,
          )
        ]
