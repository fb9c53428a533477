-- ===== src/Boat/Boarding.antt =====
-- The passengers go on board one after the other, before the captain begins his first trip.
use sem.Prelude.{
  ℕ, zero, suc, ◌-◌, ◌<◌, ◌≤◌, ◌≡◌, refl, arith, ◌∙◌, update, ltb, ltb→lt, subst, false,
  if◌then◌else◌, fun_ext, Bool-cases, inl, inr,
}
use sem.Process.{start}
use sem.Sems.{Values, Semop, IsSemop, next}
use sem.Boat.{
  Place, board, look, book, look_again, go_up, on_stair_up, seated, lower_stair, prepare, Arguments,
  places_of, begin, sems_processing, num_of_semaphors, stair_down, num_on_boat, num_on_stair,
  captain, passengers,
}
use sem.Boat.Methods.{IsSmall}
use sem.Boat.Safety.{prepared}
use sem.Boat.Scenes.{values, took, gave, passed, Scene, captain_step, passenger_step, restated}

module _ {semop : Semop} (law : IsSemop num_of_semaphors semop) (args : Arguments)
    (small : IsSmall args) (v : Values)
    (ready : sems_processing semop (λ _. 0) args.cap_of_boat args.num_of_pass args.cap_of_stair
      ≡ next v) where
  -- Where passenger `i + 1` is when `k` of them have come.
  abbrev pub came : ℕ → ℕ → Place
  came k i =
      if ltb i k then (if ltb i (places_of args) then seated else book false) else board false

  -- STAIR_DOWN is 0, and so many places on the boat and on the stair are free.
  abbrev pub boarding : ℕ → ℕ → Values
  boarding boat stair = values 0 1 boat stair 1 (places_of args) 0

  abbrev pub At : Values → Place → (ℕ → Place) → Type 0
  At = Scene semop args v

  begun :
      At (values 1 1 (places_of args) args.cap_of_stair 1 (places_of args) 0) lower_stair (came 0)
  begun = record {
    state = begin v;
    reached = start;
    values_are = fun_ext (λ j. prepared law args small v ready (begin v) start j ∙ ground arith);
    captain_at = refl;
    passengers_at = λ i. ground arith;
  }

  lowered : At (boarding (places_of args) args.cap_of_stair) prepare (came 0)
  unfolding captain
  lowered =
      captain_step semop args v begun
        (took law (values 1 1 (places_of args) args.cap_of_stair 1 (places_of args) 0) prepare
          stair_down 1 (omega arith) (omega arith) (omega arith) (omega arith))
        (λ j. ground arith)

  -- Another passenger comes to the boat, and books while the boat has places.
  looks :
      (k boat : ℕ) (f : ℕ → Place)
      → k < args.num_of_pass
      → At (boarding boat args.cap_of_stair) prepare (update f k (board false))
      → At (boarding boat args.cap_of_stair) prepare (update f k (book false))
  unfolding passengers
  looks k boat f k_in l =
      let w : Values = boarding boat args.cap_of_stair in
      let at_look : At w prepare (update f k (look false)) =
        passenger_step semop args v f k (board false) l k_in
          (passed law w (look false) stair_down (omega arith) refl) (λ j. refl) in
      passenger_step semop args v f k (look false) at_look k_in refl (λ j. refl)

  boards :
      (k boat : ℕ) (f : ℕ → Place)
      → k < args.num_of_pass
      → At (boarding (suc boat) args.cap_of_stair) prepare (update f k (book false))
      → At (boarding boat args.cap_of_stair) prepare (update f k seated)
  unfolding passengers
  boards k boat f k_in l =
      let w : Values = boarding boat args.cap_of_stair in
      let booked : At w prepare (update f k (look_again false)) =
        passenger_step semop args v f k (book false) l k_in
          (took law (boarding (suc boat) args.cap_of_stair) (look_again false) num_on_boat 1
            (omega arith) (omega arith) (omega arith) (omega arith))
          (λ j. ground arith) in
      let looked : At w prepare (update f k (go_up false)) =
        passenger_step semop args v f k (look_again false) booked k_in refl (λ j. refl) in
      let stairs : At (boarding boat (args.cap_of_stair - 1)) prepare (update f k on_stair_up) =
        passenger_step semop args v f k (go_up false) looked k_in
          (took law w on_stair_up num_on_stair 1 (omega arith) (omega arith) (omega arith)
            (omega (arith, small.some_stair)))
          (λ j. ground arith) in
      passenger_step semop args v f k on_stair_up stairs k_in
        (gave law (boarding boat (args.cap_of_stair - 1)) seated num_on_stair 1 (omega arith)
          (omega arith) (omega (arith, small.low_stair)))
        (λ j. ground (arith, small.some_stair))

  -- One passenger after the other, until all are seated or wait for a place.
  pub all_came :
      (k : ℕ)
      → k ≤ args.num_of_pass
      → At (boarding (places_of args - k) args.cap_of_stair) prepare (came k)
  all_came zero low = restated semop args v lowered (λ j. ground arith) (λ i. refl)
  all_came (suc k) low =
      let before = all_came k (omega arith) in
      let fresh : At (boarding (places_of args - k) args.cap_of_stair) prepare
          (update (came k) k (board false)) =
        restated semop args v before (λ j. refl) (λ i. ground arith) in
      let waiting = looks k (places_of args - k) (came k) (omega arith) fresh in
      elim (Bool-cases (ltb k (places_of args))) [
        | inl free ↦
            let more : places_of args - k ≡ suc (places_of args - suc k) =
              omega (arith, ltb→lt k (places_of args) free) in
            restated semop args v
              (boards k (places_of args - suc k) (came k) (omega arith) (
                subst
                  (λ boat.
                    At (boarding boat args.cap_of_stair) prepare (update (came k) k (book false)))
                  more waiting))
              (λ j. refl) (λ i. ground arith)
        | inr full ↦ restated semop args v waiting (λ j. ground arith) (λ i. ground arith)
      ]
