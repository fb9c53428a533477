-- ===== src/Boat/Scenes.antt =====
-- States of the boat by their values and places, and steps from one to the next.
use sem.Prelude.{
  ℕ, suc, ◌+◌, ◌-◌, ◌<◌, ◌≤◌, ◌≡◌, refl, arith, ap, ◌∙◌, some, update, ◌==◌, false, if◌then◌else◌,
  fun_ext,
}
use sem.Prelude.Int.{pos}
use sem.Process.{State, Reach, later, run}
use sem.Sems.{Values, Semop, IsSemop, semvmx, p_oper, v_oper, z_oper}
use sem.Sems.Laws.{p_oper_takes, v_oper_adds, z_oper_zero}
use sem.Boat.{
  Place, Arguments, places_of, method, begin, num_of_semaphors, stair_down, start_of_trip,
  num_on_boat, num_on_stair, end_of_trip, num_on_coast, last_trip, captain, passengers, resume,
}

-- The values of the set, by name.
abbrev pub values : ℕ → ℕ → ℕ → ℕ → ℕ → ℕ → ℕ → Values
values stair start boat on_stair end coast last j =
    if j == stair_down
    then stair
    else if j == start_of_trip
    then start
    else if j == num_on_boat
    then boat
    else if j == num_on_stair
    then on_stair
    else if j == end_of_trip
    then end
    else if j == num_on_coast
    then coast
    else if j == last_trip
    then last
    else 0

module _ {semop : Semop} (law : IsSemop num_of_semaphors semop) (w : Values) (q : Place) where
  pub took :
      (k c : ℕ)
      → k < num_of_semaphors
      → 1 ≤ c
      → c ≤ semvmx
      → c ≤ w k
      → resume w (p_oper semop w k (pos c)) q ≡ some (update w k (w k - c), q)
  took k c k_in some_c low has = ground (arith, p_oper_takes law w k c)

  pub gave :
      (k c : ℕ)
      → k < num_of_semaphors
      → 1 ≤ c
      → w k + c ≤ semvmx
      → resume w (v_oper semop w k (pos c)) q ≡ some (update w k (w k + c), q)
  gave k c k_in some_c room = ground (arith, v_oper_adds law w k c)

  pub passed :
      (k : ℕ) → k < num_of_semaphors → w k ≡ 0 → resume w (z_oper semop w k) q ≡ some (w, q)
  passed k k_in none_left = ap (λ o. resume w o q) (z_oper_zero law w k k_in none_left)

module _ (semop : Semop) (args : Arguments) (v : Values) where
  -- A state that can come about: its values, the captain's place, and those of the passengers.
  pub record Scene (w : Values) (p : Place) (f : ℕ → Place) : Type 0 where
    pub state : State Values Place
    pub reached : Reach (method semop args) (suc args.num_of_pass) (begin v) state
    pub values_are : state.shared ≡ w
    pub captain_at : state.place 0 ≡ p
    pub passengers_at : (i : ℕ) → state.place (suc i) ≡ f i

  -- The same state by other words.
  pub restated :
      {w w' : Values} {p : Place} {f f' : ℕ → Place}
      → Scene w p f
      → ((j : ℕ) → w j ≡ w' j)
      → ((i : ℕ) → f i ≡ f' i)
      → Scene w' p f'
  restated l values_same places_same = record {
    state = l.state;
    reached = l.reached;
    values_are = l.values_are ∙ fun_ext values_same;
    captain_at = l.captain_at;
    passengers_at = λ i. l.passengers_at i ∙ places_same i;
  }

  -- A step of the captain.
  pub captain_step :
      {w u w' : Values} {p p' : Place} {f : ℕ → Place}
      → Scene w p f
      → captain semop args.num_of_trips args.cap_of_stair (places_of args) w p ≡ some (u, p')
      → ((j : ℕ) → u j ≡ w' j)
      → Scene w' p' f
  captain_step {w} {u} {w'} {p} {p'} {f} l e same =
      let moved : Scene u p' f = record {
        state = record { shared = u; place = update l.state.place 0 p' };
        reached = later l.reached (run 0 (omega arith) (rw (l.values_are, l.captain_at) e));
        values_are = refl;
        captain_at = refl;
        passengers_at = λ i. rw (← l.passengers_at i) (ground arith);
      } in
      restated moved same (λ i. refl)

  -- A step of the passenger `k + 1`.
  pub passenger_step :
      {w u w' : Values} {p : Place} {q' : Place} (f : ℕ → Place) (k : ℕ) (q : Place)
      → Scene w p (update f k q)
      → k < args.num_of_pass
      → passengers semop w q ≡ some (u, q')
      → ((j : ℕ) → u j ≡ w' j)
      → Scene w' p (update f k q')
  passenger_step {w} {u} {w'} {p} {q'} f k q l k_in e same =
      let here : l.state.place (suc k) ≡ q = ground (arith, l.passengers_at k) in
      let own : (suc k == 0) ≡ false = ground arith in
      let next : method semop args (suc k) w q ≡ some (u, q') = rw own e in
      let moved : Scene u p (update f k q') = record {
        state = record { shared = u; place = update l.state.place (suc k) q' };
        reached = later l.reached (run (suc k) (omega arith) (rw (l.values_are, here) next));
        values_are = refl;
        captain_at = ground (arith, l.captain_at);
        passengers_at = λ i. ground (arith, l.passengers_at i);
      } in
      restated moved same (λ i. refl)
