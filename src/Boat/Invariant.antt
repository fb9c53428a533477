-- ===== src/Boat/Invariant.antt =====
-- How many are on the stair and on the boat, against the two semaphores that count the free places.
use sem.Prelude.{ℕ, ◌+◌, ◌<◌, ◌≡◌, arith, total, total-update, update}
use sem.Process.{State}
use sem.Sems.{Values}
use sem.Boat.{
  Place, look_again, go_up, on_stair_up, seated, sailing, arrived, go_down, on_stair_down,
  on_island, gave_up, stair_removed, num_on_boat, num_on_stair,
}

module _ (cap_of_stair : ℕ) where
  -- The places on the stair that a process takes up: the captain takes all when he removes it.
  abbrev pub stair : ℕ → Place → ℕ
  stair i on_stair_up = 1
  stair i on_stair_down = 1
  stair i (stair_removed k) = cap_of_stair
  stair i p = 0

-- The places on the boat that a passenger has booked.
abbrev pub aboard : ℕ → Place → ℕ
aboard i (look_again flag) = 1
aboard i (go_up flag) = 1
aboard i on_stair_up = 1
aboard i seated = 1
aboard i sailing = 1
aboard i arrived = 1
aboard i go_down = 1
aboard i on_stair_down = 1
aboard i on_island = 1
aboard i (gave_up flag) = 1
aboard i p = 0

pub record Inv (n cap_of_stair places : ℕ) (s : State Values Place) : Type 0 where
  pub on_stair : s.shared num_on_stair + total (stair cap_of_stair) n s.place ≡ cap_of_stair
  pub on_boat : s.shared num_on_boat + total aboard n s.place ≡ places

pub step-Inv :
    (n cap_of_stair places : ℕ) (s : State Values Place) (i : ℕ) (v : Values) (p q : Place)
    → i < n
    → Inv n cap_of_stair places s
    → s.place i ≡ p
    → v num_on_stair + stair cap_of_stair i q ≡ s.shared num_on_stair + stair cap_of_stair i p
    → v num_on_boat + aboard i q ≡ s.shared num_on_boat + aboard i p
    → Inv n cap_of_stair places (record { shared = v; place = update s.place i q })
step-Inv n cap_of_stair places s i v p q lt inv at h k = record {
  on_stair =
      omega (arith, inv.on_stair, rw at at (total-update (stair cap_of_stair) n s.place i q lt));
  on_boat = omega (arith, inv.on_boat, rw at at (total-update aboard n s.place i q lt));
}
