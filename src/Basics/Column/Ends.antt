-- ===== src/Basics/Column/Ends.antt =====
-- Every run of My_fork_column ends.
use sem.Prelude.{
  ℕ, zero, suc, ◌+◌, ◌-◌, ◌*◌, ◌<◌, ◌≤◌, ◌≡◌, ◌≢◌, ◌⊎◌, arith, some, le-total-first, Bool-cases,
  inl, inr, ltb, leb,
}
use sem.Process.{State, Reach, steps, steps-bound}
use sem.Basics.Column.{
  Shared, Place, round, waiting, back, unborn, begun, finished, gone, Turn, column_parent,
  column_child, method, begin,
}
use sem.Basics.Column.Order.{
  Phase, at_round, at_back, forked, printing, leaving, ended, Inv, Reach-Inv, not_below, one_below,
  no_turn, IsInOrder, IsIdle, column-IsInOrder,
}

-- At most so many steps are ahead of a process.
abbrev work : ℕ → ℕ → Place → ℕ
work n j (round i) = 2 * (n - i) + 1
work n j (waiting i) = 2 * (n - i)
work n j unborn = 3
work n j begun = 2
work n j finished = 1
work n j p = 0

module _ (n j : ℕ) (s' : Shared) (q : Place) where
  moved :
      (w : ℕ) (s : Shared) (p : Place)
      → ◌≡◌ {A = Turn} (some (s, p)) (some (s', q))
      → work n j p < w
      → work n j q < w
  moved w s p e less = let same : p ≡ q = ground arith in rw (← same) less

  column_parent-work :
      {k : ℕ} {s : Shared} {p stage : Place}
      → Phase n k s p stage
      → column_parent n s p ≡ some (s', q)
      → work n j q < work n j p
  unfolding column_parent
  column_parent-work (at_round k le) e = elim (Bool-cases (ltb k n)) [
    | inl more ↦ moved _ _ (waiting k) (rw more at e) (omega arith)
    | inr all ↦ moved _ _ back (rw all at e) (omega arith)
  ]
  column_parent-work (at_back k all) e = cc
  column_parent-work (forked k lt) e = absurd (no_turn _ (rw (not_below k) at e))
  column_parent-work (printing k lt) e = absurd (no_turn _ (rw (not_below k) at e))
  column_parent-work (leaving k lt) e = absurd (no_turn _ (rw (not_below k) at e))
  column_parent-work (ended k lt) e =
      moved _ _ (round (k + 1)) (rw (one_below k) at e) (omega arith)

  column_child-work :
      (s : Shared) (p : Place) → column_child j s p ≡ some (s', q) → work n j q < work n j p
  unfolding column_child
  column_child-work s unborn e = elim (Bool-cases (leb j s.born)) [
    | inl is_born ↦ moved _ s begun (rw is_born at e) (omega arith)
    | inr later ↦ absurd (no_turn _ (rw later at e))
  ]
  column_child-work s begun e = moved _ _ finished e (omega arith)
  column_child-work s finished e = moved _ _ gone e (omega arith)
  column_child-work s p e = cc

method-work :
    (n i : ℕ) (s : State Shared Place) (s' : Shared) (q : Place)
    → Inv n s
    → method n i s.shared (s.place i) ≡ some (s', q)
    → work n i q < work n i (s.place i)
method-work n zero s s' q inv e = column_parent-work n 0 s' q inv.phase e
method-work n (suc j) s s' q inv e = column_child-work n (suc j) s' q s.shared (s.place (suc j)) e

-- My_fork_column for `num_of_process` children, whatever the order of the steps: at most 5 of them are
-- taken for each child, and one more. The children that have printed are those of the first rounds, in
-- their order; either the loop has ended and that are all of them, or a process can take a step; and of
-- two children one has not begun or has ended.
pub column_ends :
    (num_of_process : ℕ) (i j : ℕ)
    → i ≢ j
    → {s : State Shared Place} (r : Reach (method num_of_process) (suc num_of_process) begin s)
    → (steps (method num_of_process) r ≤ 5 * num_of_process + 1)
      × IsInOrder num_of_process s
      × (IsIdle (s.place (suc i)) ⊎ IsIdle (s.place (suc j)))
column_ends n i j two r =
    let (in_order, alone) = column-IsInOrder n (suc n) i j two r in
    (
      omega (
        arith,
        le-total-first (work n) begin.place (2 * n + 1) 3 n (omega arith) (λ l lt. ground arith) n
            (omega arith),
        steps-bound (method n) (Inv n) (work n) (λ x run. Reach-Inv n (suc n) run)
            (λ x l q p lt inv e. method-work n l x q p inv e) r,
      ),
      in_order,
      alone,
    )
