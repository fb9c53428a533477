-- ===== src/Boat.antt =====
-- 7sem/my_boat.c: a captain and his passengers, who share a stair and a boat. Process 0 is the
-- captain, the others are passengers.
pub mod Invariant
pub mod Methods
pub mod Safety
pub mod Scenes
pub mod Boarding
pub mod Stranded
mod Tests
use sem.Prelude.{ℕ, suc, ◌+◌, Bool, true, false, Option, none, some, ltb, ◌==◌, if◌then◌else◌}
use sem.Prelude.Int.{pos}
use sem.Process.{State}
use sem.Sems.{Values, Semop, Outcome, next, waits, exits, and_then, p_oper, v_oper, z_oper}

-- `num_of_semaphors`, and `enum Semaphors`
abbrev pub num_of_semaphors : ℕ
num_of_semaphors = 8

abbrev pub stair_down : ℕ
stair_down = 0

abbrev pub start_of_trip : ℕ
start_of_trip = 1

abbrev pub num_on_boat : ℕ
num_on_boat = 2

abbrev pub num_on_stair : ℕ
num_on_stair = 3

abbrev pub end_of_trip : ℕ
end_of_trip = 4

abbrev pub num_on_coast : ℕ
num_on_coast = 5

abbrev pub last_trip : ℕ
last_trip = 6

-- What a process does next. A passenger keeps his `flag` where the code can still change it, and the
-- captain the number of the trip.
pub data Place : Type 0 where
  board : Bool → Place  -- passenger: Z(STAIR_DOWN), at the head of the loop
  look : Bool → Place  -- the first look at LAST_TRIP
  book : Bool → Place  -- P(NUM_ON_BOAT)
  look_again : Bool → Place  -- the second look at LAST_TRIP
  go_up : Bool → Place  -- P(NUM_ON_STAIR)
  on_stair_up : Place  -- V(NUM_ON_STAIR)
  seated : Place  -- Z(START_OF_TRIP)
  sailing : Place  -- Z(END_OF_TRIP)
  arrived : Place  -- Z(STAIR_DOWN)
  go_down : Place  -- P(NUM_ON_STAIR)
  on_stair_down : Place  -- V(NUM_ON_STAIR)
  on_island : Place  -- V(NUM_ON_BOAT)
  on_coast : Place  -- P(NUM_ON_COAST)
  went_away : Bool → Place  -- behind the loop, from the first `break`
  gave_up : Bool → Place  -- behind the loop, from the second `break`, with a place on the boat booked
  lower_stair : Place  -- captain: P(STAIR_DOWN)
  prepare : Place  -- P(START_OF_TRIP)
  trip : ℕ → Place  -- the head of the loop, with V(LAST_TRIP)
  wait_full : ℕ → Place  -- Z(NUM_ON_BOAT)
  close_stair : ℕ → Place  -- V(STAIR_DOWN)
  remove_stair : ℕ → Place  -- P(NUM_ON_STAIR, cap_of_stair)
  stair_removed : ℕ → Place  -- V(NUM_ON_STAIR, cap_of_stair)
  start_trip : ℕ → Place  -- V(START_OF_TRIP)
  end_trip : ℕ → Place  -- P(END_OF_TRIP)
  open_stair : ℕ → Place  -- P(STAIR_DOWN)
  wait_empty : ℕ → Place  -- Z(NUM_ON_COAST)
  reset_end : ℕ → Place  -- V(END_OF_TRIP)
  reset_coast : ℕ → Place  -- V(NUM_ON_COAST, cap_of_boat)
  next_trip : ℕ → Place  -- the test of the last trip, and P(START_OF_TRIP)
  ashore : Place  -- the captain has gone away
  exited : Place  -- `exit(0)` in a semaphore operation

abbrev pub Turn : Type 0
Turn = Option (Values × Place)

abbrev pub resume : Values → Outcome → Place → Turn
resume s (next v) p = some (v, p)
resume s waits p = none
resume s exits p = some (s, exited)

-- `if (semctl(sem_id, LAST_TRIP, GETVAL)) break;`
abbrev pub unless_last : Values → Place → Place → Turn
unless_last v away p = some (v, if v last_trip == 0 then p else away)

-- The numbers that the program is run with, as `main` reads them.
pub record Arguments : Type 0 where
  pub num_of_pass : ℕ
  pub num_of_trips : ℕ
  pub cap_of_boat : ℕ
  pub cap_of_stair : ℕ

-- The captain's last argument in `main`.
abbrev pub places_of : Arguments → ℕ
places_of args =
    if ltb args.cap_of_boat args.num_of_pass then args.cap_of_boat else args.num_of_pass

module _ (semop : Semop) where
  unfoldable pub passengers : Values → Place → Turn
  passengers v (board flag) = resume v (z_oper semop v stair_down) (look flag)
  passengers v (look flag) = unless_last v (went_away flag) (book flag)
  passengers v (book flag) = resume v (p_oper semop v num_on_boat (pos 1)) (look_again flag)
  passengers v (look_again flag) = unless_last v (gave_up flag) (go_up flag)
  passengers v (go_up flag) = resume v (p_oper semop v num_on_stair (pos 1)) on_stair_up
  passengers v on_stair_up = resume v (v_oper semop v num_on_stair (pos 1)) seated
  passengers v seated = resume v (z_oper semop v start_of_trip) sailing
  passengers v sailing = resume v (z_oper semop v end_of_trip) arrived
  passengers v arrived = resume v (z_oper semop v stair_down) go_down
  passengers v go_down = resume v (p_oper semop v num_on_stair (pos 1)) on_stair_down
  passengers v on_stair_down = resume v (v_oper semop v num_on_stair (pos 1)) on_island
  passengers v on_island = resume v (v_oper semop v num_on_boat (pos 1)) on_coast
  passengers v on_coast = resume v (p_oper semop v num_on_coast (pos 1)) (board true)
  passengers v p = none

  module _ (num_of_trips cap_of_stair cap_of_boat : ℕ) where
    unfoldable pub captain : Values → Place → Turn
    captain v lower_stair = resume v (p_oper semop v stair_down (pos 1)) prepare
    captain v prepare = resume v (p_oper semop v start_of_trip (pos 1)) (trip 0)
    captain v (trip i) =
        if ltb i num_of_trips
        then if i + 1 == num_of_trips
          then resume v (v_oper semop v last_trip (pos 1)) (wait_full i)
          else some (v, wait_full i)
        else some (v, ashore)
    captain v (wait_full i) = resume v (z_oper semop v num_on_boat) (close_stair i)
    captain v (close_stair i) = resume v (v_oper semop v stair_down (pos 1)) (remove_stair i)
    captain v (remove_stair i) =
        resume v (p_oper semop v num_on_stair (pos cap_of_stair)) (stair_removed i)
    captain v (stair_removed i) =
        resume v (v_oper semop v num_on_stair (pos cap_of_stair)) (start_trip i)
    captain v (start_trip i) = resume v (v_oper semop v start_of_trip (pos 1)) (end_trip i)
    captain v (end_trip i) = resume v (p_oper semop v end_of_trip (pos 1)) (open_stair i)
    captain v (open_stair i) = resume v (p_oper semop v stair_down (pos 1)) (wait_empty i)
    captain v (wait_empty i) = resume v (z_oper semop v num_on_coast) (reset_end i)
    captain v (reset_end i) = resume v (v_oper semop v end_of_trip (pos 1)) (reset_coast i)
    captain v (reset_coast i) =
        resume v (v_oper semop v num_on_coast (pos cap_of_boat)) (next_trip i)
    captain v (next_trip i) =
        if i + 1 == num_of_trips
        then some (v, ashore)
        else resume v (p_oper semop v start_of_trip (pos 1)) (trip (i + 1))
    captain v p = none

  unfoldable pub sems_processing : Values → ℕ → ℕ → ℕ → Outcome
  sems_processing v cap_of_boat num_of_pass cap_of_stair =
      and_then (v_oper semop v stair_down (pos 1)) (λ v.
        and_then (v_oper semop v end_of_trip (pos 1)) (λ v.
          and_then (v_oper semop v start_of_trip (pos 1)) (λ v.
            and_then (v_oper semop v num_on_stair (pos cap_of_stair)) (λ v.
              if ltb cap_of_boat num_of_pass
              then and_then (v_oper semop v num_on_boat (pos cap_of_boat))
                  (λ v. v_oper semop v num_on_coast (pos cap_of_boat))
              else and_then (v_oper semop v num_on_boat (pos num_of_pass))
                  (λ v. v_oper semop v num_on_coast (pos num_of_pass))))))

  -- What the children of `main` run.
  abbrev pub method : Arguments → ℕ → Values → Place → Turn
  method args i v p =
      if i == 0
      then captain args.num_of_trips args.cap_of_stair (places_of args) v p
      else passengers v p

-- The children at their start.
abbrev pub begin : Values → State Values Place
begin v = record { shared = v; place = λ i. if i == 0 then lower_stair else board false }
