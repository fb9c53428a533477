-- ===== src/Boat/Stranded.antt =====
-- The first trip of the boat can end in a deadlock.
use sem.Prelude.{
  ℕ, zero, suc, ◌+◌, ◌<◌, ◌≤◌, ◌≡◌, refl, arith, ◌∙◌, none, update, ◌==◌, ltb, true, false,
  if◌then◌else◌, Bool-cases, inl, inr,
}
use sem.Process.{State, Reach}
use sem.Sems.{Values, Semop, IsSemop, next}
use sem.Sems.Laws.{p_oper_takes, z_oper_lem}
use sem.Boat.{
  Place, book, seated, prepare, trip, wait_full, close_stair, remove_stair, stair_removed,
  start_trip, end_trip, open_stair, wait_empty, Arguments, places_of, method, begin,
  sems_processing, num_of_semaphors, stair_down, start_of_trip, num_on_boat, num_on_stair,
  end_of_trip, num_on_coast, last_trip, captain, passengers,
}
use sem.Boat.Methods.{IsSmall, places_small}
use sem.Boat.Scenes.{values, took, gave, passed, Scene, captain_step, restated}
use sem.Boat.Boarding.{came, boarding, all_came}

module _ {semop : Semop} (law : IsSemop num_of_semaphors semop) (args : Arguments)
    (small : IsSmall args) (v : Values)
    (ready : sems_processing semop (λ _. 0) args.cap_of_boat args.num_of_pass args.cap_of_stair
      ≡ next v) where
  -- LAST_TRIP in the first trip.
  abbrev last : ℕ
  last = if 1 == args.num_of_trips then 1 else 0

  -- The end: the captain waits for the passengers to get off, STAIR_DOWN and END_OF_TRIP are 0.
  abbrev pub stuck_values : Values
  stuck_values = values 0 1 0 args.cap_of_stair 0 (places_of args) last

  -- The values on the way to the end, where only these differ.
  abbrev at_sea : ℕ → ℕ → ℕ → ℕ → Values
  at_sea stair started on_stair end = values stair started 0 on_stair end (places_of args) last

  abbrev Waits : Values → Place → Type 0
  Waits w p = Scene semop args v w p (came law args small v ready args.num_of_pass)

  module _ (some_trips : 1 ≤ args.num_of_trips) where
    tripped : Waits (at_sea 0 0 args.cap_of_stair 1) (wait_full 0)
    unfolding captain
    tripped =
        let all : Waits (boarding law args small v ready 0 args.cap_of_stair) prepare =
          restated semop args v (all_came law args small v ready args.num_of_pass (omega arith))
            (λ j. ground arith) (λ i. refl) in
        let w : Values = values 0 0 0 args.cap_of_stair 1 (places_of args) 0 in
        let set_out : Waits w (trip 0) =
          captain_step semop args v all
            (took law (boarding law args small v ready 0 args.cap_of_stair) (trip 0) start_of_trip 1
              (omega arith) (omega arith) (omega arith) (omega arith))
            (λ j. ground arith) in
        let some_trip : ltb 0 args.num_of_trips ≡ true = ground arith in
        elim (Bool-cases (0 + 1 == args.num_of_trips)) [
          | inl one ↦
              captain_step semop args v {u = update w last_trip (w last_trip + 1)} set_out
                (rw (some_trip, one)
                  (gave law w (wait_full 0) last_trip 1 (omega arith) (omega arith) (omega arith)))
                (λ j. ground arith)
          | inr more ↦
              captain_step semop args v {u = w} set_out (rw (some_trip, more) refl)
                (λ j. ground arith)
        ]

    removed : Waits (at_sea 1 0 0 1) (stair_removed 0)
    unfolding captain
    removed =
        let S : ℕ = args.cap_of_stair in
        let full : Waits (at_sea 0 0 S 1) (close_stair 0) =
          captain_step semop args v tripped
            (passed law (at_sea 0 0 S 1) (close_stair 0) num_on_boat (omega arith) refl)
            (λ j. refl) in
        let closed : Waits (at_sea 1 0 S 1) (remove_stair 0) =
          captain_step semop args v full
            (gave law (at_sea 0 0 S 1) (remove_stair 0) stair_down 1 (omega arith) (omega arith)
              (omega arith))
            (λ j. ground arith) in
        captain_step semop args v closed
          (took law (at_sea 1 0 S 1) (stair_removed 0) num_on_stair S (omega arith) small.some_stair
            small.low_stair (omega arith))
          (λ j. ground arith)

    sailed : Waits stuck_values (wait_empty 0)
    unfolding captain
    sailed =
        let S : ℕ = args.cap_of_stair in
        let back : Waits (at_sea 1 0 S 1) (start_trip 0) =
          captain_step semop args v removed
            (gave law (at_sea 1 0 0 1) (start_trip 0) num_on_stair S (omega arith) small.some_stair
              (omega (arith, small.low_stair)))
            (λ j. ground arith) in
        let started : Waits (at_sea 1 1 S 1) (end_trip 0) =
          captain_step semop args v back
            (gave law (at_sea 1 0 S 1) (end_trip 0) start_of_trip 1 (omega arith) (omega arith)
              (omega arith))
            (λ j. ground arith) in
        let ended : Waits (at_sea 1 1 S 0) (open_stair 0) =
          captain_step semop args v started
            (took law (at_sea 1 1 S 1) (open_stair 0) end_of_trip 1 (omega arith) (omega arith)
              (omega arith) (omega arith))
            (λ j. ground arith) in
        captain_step semop args v ended
          (took law (at_sea 1 1 S 0) (wait_empty 0) stair_down 1 (omega arith) (omega arith)
            (omega arith) (omega arith))
          (λ j. ground arith)

    captain_waits :
        captain semop args.num_of_trips args.cap_of_stair
          (places_of args)
          stuck_values
          (wait_empty 0)
        ≡ none
    unfolding captain
    captain_waits =
        let some_places : 1 ≤ places_of args = (places_small args small).0 in
        ground (arith, z_oper_lem law stuck_values num_on_coast)

    seated_waits : passengers semop stuck_values seated ≡ none
    unfolding passengers
    seated_waits = ground (arith, z_oper_lem law stuck_values start_of_trip)

    book_waits : passengers semop stuck_values (book false) ≡ none
    unfolding passengers
    book_waits = ground (arith, p_oper_takes law stuck_values num_on_boat 1)

    nobody_moves :
        (l : Waits stuck_values (wait_empty 0)) (i : ℕ)
        → i < suc args.num_of_pass
        → method semop args i l.state.shared (l.state.place i) ≡ none
    nobody_moves l zero lt = rw (l.values_are, l.captain_at) captain_waits
    nobody_moves l (suc i) lt =
        let own : (suc i == 0) ≡ false = ground arith in
        let here : ltb i args.num_of_pass ≡ true = ground arith in
        elim (Bool-cases (ltb i (places_of args))) [
          | inl aboard ↦
              let at : l.state.place (suc i) ≡ seated = l.passengers_at i ∙ ground arith in
              rw (own, l.values_are, at) seated_waits
          | inr left ↦
              let at : l.state.place (suc i) ≡ book false = l.passengers_at i ∙ ground arith in
              rw (own, l.values_are, at) book_waits
        ]

    -- With numbers that the semaphores can hold and one trip or more: the first trip can end in a
    -- deadlock. There is a run to a state in which the captain waits for the passengers to get off,
    -- those in the boat, as many as it has places, wait for START_OF_TRIP to be 0, the others wait for a
    -- place, and no process can take a step.
    pub first_trip_stuck :
        (s : State Values Place) × Reach (method semop args) (suc args.num_of_pass) (begin v) s
        × (s.place 0 ≡ wait_empty 0)
        × ((i : ℕ)
            → i < args.num_of_pass
            → s.place (suc i) ≡ (if ltb i (places_of args) then seated else book false))
        × ((i : ℕ) → i < suc args.num_of_pass → method semop args i s.shared (s.place i) ≡ none)
    first_trip_stuck =
        let l = sailed in
        (l.state, l.reached, l.captain_at, λ i lt. l.passengers_at i ∙ ground arith, nobody_moves l)
