-- ===== src/Bridge/Main.antt =====
-- The loop of `main` in bridge.c that starts the children.
use sem.Prelude.{ℕ, zero, suc, ◌+◌, ◌/◌, ◌≡◌, arith, List, [], ◌∷◌, ◌++◌, if◌then◌else◌}
use sem.Prelude.Int.{ℤ, pos, pos_part, ◌+ℤ◌, to_int}
use sem.Bridge.{is_car}

-- What a child runs, with its number: `Car_method` or `Ship_method`.
pub data Child : Type 0 where
  car_child : ℕ → Child
  ship_child : ℕ → Child

child_of : ℕ → Child
child_of index =
    if is_car index then car_child (index / 2 + 1) else ship_child ((index + 1) / 2 + 1)

-- The children of the first `n` rounds, in order.
forked : ℕ → List Child
forked zero = []
forked (suc n) = forked n ++ (child_of n ∷ [])

-- The sum of the numbers of cars and of ships, as an `int`: of two console arguments, as `atoi` reads
-- them, or else of 5 and 6.
abbrev pub num_of_children : List ℤ → ℤ
num_of_children (cars ∷ ships ∷ []) = to_int (cars +ℤ ships)
num_of_children args = pos 11

-- The loop runs over the indices below that sum.
pub fork_loop : List ℤ → List Child
fork_loop args = forked (pos_part (num_of_children args))

abbrev pub cars_in : List Child → ℕ
cars_in [] = 0
cars_in (car_child k ∷ cs) = suc (cars_in cs)
cars_in (ship_child k ∷ cs) = cars_in cs

abbrev pub ships_in : List Child → ℕ
ships_in [] = 0
ships_in (car_child k ∷ cs) = ships_in cs
ships_in (ship_child k ∷ cs) = suc (ships_in cs)

cars_in-append : (cs ds : List Child) → cars_in (cs ++ ds) ≡ cars_in cs + cars_in ds
cars_in-append [] ds = omega arith
cars_in-append (car_child k ∷ cs) ds = omega (arith, cars_in-append cs ds)
cars_in-append (ship_child k ∷ cs) ds = cars_in-append cs ds

ships_in-append : (cs ds : List Child) → ships_in (cs ++ ds) ≡ ships_in cs + ships_in ds
ships_in-append [] ds = omega arith
ships_in-append (car_child k ∷ cs) ds = ships_in-append cs ds
ships_in-append (ship_child k ∷ cs) ds = omega (arith, ships_in-append cs ds)

forked_counts : (n : ℕ) → (cars_in (forked n) ≡ (n + 1) / 2) × (ships_in (forked n) ≡ n / 2)
unfolding forked child_of
forked_counts zero = omega arith
forked_counts (suc n) = ground (
  arith,
  forked_counts n,
  cars_in-append (forked n) (child_of n ∷ []),
  ships_in-append (forked n) (child_of n ∷ []),
)

-- Whatever the console arguments are: of the children that the loop makes, as many as the sum says, half
-- are cars, one more where their number is odd, and the others are ships.
pub fork_loop_counts :
    (args : List ℤ)
    → (cars_in (fork_loop args) ≡ (pos_part (num_of_children args) + 1) / 2)
      × (ships_in (fork_loop args) ≡ pos_part (num_of_children args) / 2)
unfolding fork_loop
fork_loop_counts args = forked_counts (pos_part (num_of_children args))
