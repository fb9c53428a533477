-- ===== src/Basics/Column/Order.antt =====
-- The order in which the children of My_fork_column print.
use sem.Prelude.{
  ℕ, zero, suc, ◌+◌, ◌<◌, ◌≤◌, ◌≡◌, ◌≢◌, ◌⊎◌, inl, inr, refl, sym, ◌∙◌, ap, subst, arith, true,
  false, none, some, List, [], ◌∷◌, ◌++◌, ltb, leb, ◌==◌, if◌then◌else◌, update, Bool-cases,
}
use sem.Process.{State, Reach, Reach-invariant}
use sem.Basics.Column.{
  Shared, Place, round, waiting, back, unborn, begun, finished, gone, Turn, column_parent,
  column_child, method, begin,
}

-- The children of the first `k` rounds.
unfoldable pub first_children : ℕ → List ℕ
first_children zero = []
first_children (suc k) = first_children k ++ ((k + 1) ∷ [])

abbrev counts : ℕ → ℕ → ℕ → List ℕ → Shared
counts born ended reaped printed = record {
  born = born;
  ended = ended;
  reaped = reaped;
  printed = printed;
}

-- The children of the first `k` rounds are gone, the next is at `stage`.
abbrev child_at : ℕ → Place → ℕ → Place
child_at k stage j = if leb j k then gone else if j == k + 1 then stage else unborn

made_next : (k : ℕ) → first_children k ++ ((k + 1) ∷ []) ≡ first_children (k + 1)
unfolding first_children
made_next k = let next : suc k ≡ k + 1 = omega arith in ap first_children next

pub not_below : (k : ℕ) → ltb k k ≡ false
not_below k = ground arith

pub one_below : (k : ℕ) → ltb k (k + 1) ≡ true
one_below k = ground arith

born_later : (k : ℕ) → leb (k + 1) k ≡ false
born_later k = ground arith

born_now : (k : ℕ) → leb (k + 1) (k + 1) ≡ true
born_now k = ground arith

-- Where the child of round `k` is gone, the next is not there.
one_more : (k j : ℕ) → child_at k gone (suc j) ≡ child_at (k + 1) unborn (suc j)
one_more k j = ground arith

not_zero : (j : ℕ) → (0 == suc j) ≡ false
not_zero j = ground arith

zero_not : (j : ℕ) → (suc j == 0) ≡ false
zero_not j = ground arith

pub no_turn : (t : Shared × Place) → ◌≢◌ {A = Turn} none (some t)
no_turn t e = cc

module _ (n : ℕ) where
  pub data Phase : ℕ → Shared → Place → Place → Type 0 where
    at_round : (k : ℕ) → k ≤ n → Phase k (counts k k k (first_children k)) (round k) unborn
    at_back : (k : ℕ) → k ≡ n → Phase k (counts k k k (first_children k)) back unborn
    forked : (k : ℕ) → k < n → Phase k (counts (k + 1) k k (first_children k)) (waiting k) unborn
    printing : (k : ℕ) → k < n → Phase k (counts (k + 1) k k (first_children k)) (waiting k) begun
    leaving :
        (k : ℕ) → k < n → Phase k (counts (k + 1) k k (first_children (k + 1))) (waiting k) finished
    ended :
        (k : ℕ)
        → k < n
        → Phase k (counts (k + 1) (k + 1) k (first_children (k + 1))) (waiting k) gone

  pub record Inv (s : State Shared Place) : Type 0 where
    pub k : ℕ
    pub stage : Place
    pub phase : Phase k s.shared (s.place 0) stage
    pub children : (j : ℕ) → s.place (suc j) ≡ child_at k stage (suc j)

  -- The phase behind a step of the parent, and of the child of round `k`.
  abbrev ParentNext : ℕ → Place → Turn → Type 0
  ParentNext k stage none = Unit
  ParentNext k stage (some (s, p)) =
      (k' : ℕ) × (stage' : Place) × Phase k' s p stage'
      × ((j : ℕ) → child_at k stage (suc j) ≡ child_at k' stage' (suc j))

  parent_moves :
      {k : ℕ} {s : Shared} {p stage : Place}
      → Phase k s p stage
      → ParentNext k stage (column_parent n s p)
  unfolding column_parent
  parent_moves (at_round k le) = elim (Bool-cases (ltb k n)) [
    | inl more ↦ rw more (k, unborn, forked k (ground arith), λ j. refl)
    | inr all ↦ rw all (k, unborn, at_back k (ground arith), λ j. refl)
  ]
  parent_moves (at_back k all) = tt
  parent_moves (forked k lt) = rw (not_below k) tt
  parent_moves (printing k lt) = rw (not_below k) tt
  parent_moves (leaving k lt) = rw (not_below k) tt
  parent_moves (ended k lt) =
      rw (one_below k) (k + 1, unborn, at_round (k + 1) (omega arith), one_more k)

  abbrev ChildNext : ℕ → ℕ → Place → Turn → Type 0
  ChildNext j k p none = Unit
  ChildNext j k p (some (s, stage)) = (j ≡ k + 1) × Phase k s p stage

  child_moves :
      {k : ℕ} {s : Shared} {p stage : Place}
      → Phase k s p stage
      → ChildNext (k + 1) k p (column_child (k + 1) s stage)
  unfolding column_child
  child_moves (at_round k le) = rw (born_later k) tt
  child_moves (at_back k all) = rw (born_later k) tt
  child_moves (forked k lt) = rw (born_now k) (refl, printing k lt)
  child_moves (printing k lt) = rw (made_next k) (refl, leaving k lt)
  child_moves (leaving k lt) = (refl, ended k lt)
  child_moves (ended k lt) = tt

  born_low : {k : ℕ} {s : Shared} {p stage : Place} → Phase k s p stage → s.born ≤ k + 1
  born_low (at_round k le) = omega arith
  born_low (at_back k all) = omega arith
  born_low (forked k lt) = omega arith
  born_low (printing k lt) = omega arith
  born_low (leaving k lt) = omega arith
  born_low (ended k lt) = omega arith

  -- Only the child of round `k` can take a step.
  its_child :
      {k : ℕ} {s : Shared} {p stage : Place} (ph : Phase k s p stage) (j : ℕ)
      → (column_child (suc j) s (child_at k stage (suc j)) ≡ none) ⊎ (j ≡ k)
  unfolding column_child
  its_child {k} {s} {p} {stage} ph j = elim (Bool-cases (leb (suc j) k)) [
    | inl before ↦ inl (rw before refl)
    | inr not_before ↦ elim (Bool-cases (suc j == k + 1)) [
      | inl now ↦ inr (ground arith)
      | inr later ↦
          let unborn_yet : leb (suc j) s.born ≡ false = ground (arith, born_low ph) in
          inl (rw (not_before, later, unborn_yet) refl)
    ]
  ]

  at_stage : (k j : ℕ) (stage : Place) → j ≡ k → child_at k stage (suc j) ≡ stage
  at_stage k j stage now = ground arith

  moved :
      (place : ℕ → Place) (k j : ℕ) (stage q : Place)
      → ((i : ℕ) → place (suc i) ≡ child_at k stage (suc i))
      → j ≡ k
      → (i : ℕ) → update place (suc j) q (suc i) ≡ child_at k q (suc i)
  moved place k j stage q children now i = elim (Bool-cases (suc j == suc i)) [
    | inl same ↦ let here : i ≡ k = ground arith in rw (same, at_stage k i q here) refl
    | inr other ↦
        let elsewhere : child_at k stage (suc i) ≡ child_at k q (suc i) = ground arith in
        rw other (children i ∙ elsewhere)
  ]

  start-Inv : Inv begin
  unfolding first_children
  start-Inv = record {
    k = 0;
    stage = unborn;
    phase = at_round 0 (omega arith);
    children = λ j. ground arith;
  }

  step-Inv :
      (s : State Shared Place) (i : ℕ) (s' : Shared) (q : Place)
      → Inv s
      → method n i s.shared (s.place i) ≡ some (s', q)
      → Inv (record { shared = s'; place = update s.place i q })
  step-Inv s zero s' q inv e =
      let (k', stage', phase', same) =
        subst (ParentNext inv.k inv.stage) e (parent_moves inv.phase) in
      record {
        k = k';
        stage = stage';
        phase = phase';
        children = λ j. rw (not_zero j) (inv.children j ∙ same j);
      }
  step-Inv s (suc j) s' q inv e = elim (its_child inv.phase j) [
    | inl still ↦
        absurd (no_turn _ (sym (ap (column_child (suc j) s.shared) (inv.children j) ∙ still) ∙ e))
    | inr now ↦
        let which : suc j ≡ inv.k + 1 = omega arith in
        let turn : column_child (inv.k + 1) s.shared inv.stage ≡ some (s', q) =
          rw (inv.children j, at_stage inv.k j inv.stage now, which) at e in
        let (at_k, phase') =
          subst (ChildNext (inv.k + 1) inv.k (s.place 0)) turn (child_moves inv.phase) in
        record {
          k = inv.k;
          stage = q;
          phase = rw (zero_not j) phase';
          children = moved s.place inv.k j inv.stage q inv.children now;
        }
  ]

  -- The loop has ended behind its last round, or a process can take a step.
  abbrev Goes : ℕ → ℕ → Shared → Place → Place → Type 0
  Goes m k s p stage =
      ((p ≡ back) × (m ≡ n))
      ⊎ ((column_parent n s p ≢ none) ⊎ (column_child (k + 1) s stage ≢ none))

  at_round_turn :
      (k : ℕ)
      → (ltb k n ≡ true) ⊎ (ltb k n ≡ false)
      → column_parent n (counts k k k (first_children k)) (round k) ≢ none
  unfolding column_parent
  at_round_turn k (inl more) e = no_turn _ (sym (rw more at e))
  at_round_turn k (inr all) e = no_turn _ (sym (rw all at e))

  printed_so_far :
      {k : ℕ} {s : Shared} {p stage : Place}
      → Phase k s p stage
      → (m : ℕ) × (m ≤ n) × (s.printed ≡ first_children m) × Goes m k s p stage
  unfolding column_parent column_child
  printed_so_far (at_round k le) = (k, le, refl, inr (inl (at_round_turn k (Bool-cases (ltb k n)))))
  printed_so_far (at_back k all) = (k, omega arith, refl, inl (refl, all))
  printed_so_far (forked k lt) =
      (k, omega arith, refl, inr (inr (λ e. no_turn _ (sym (rw (born_now k) at e)))))
  printed_so_far (printing k lt) = (k, omega arith, refl, inr (inr (λ e. no_turn _ (sym e))))
  printed_so_far (leaving k lt) = (k + 1, omega arith, refl, inr (inr (λ e. no_turn _ (sym e))))
  printed_so_far (ended k lt) =
      (k + 1, omega arith, refl, inr (inl (λ e. no_turn _ (sym (rw (one_below k) at e)))))

-- A child that has not begun, or has ended.
abbrev pub IsIdle : Place → Type 0
IsIdle p = (p ≡ unborn) ⊎ (p ≡ gone)

IsIdle-others : (k j : ℕ) (stage : Place) → j ≢ k → IsIdle (child_at k stage (suc j))
IsIdle-others k j stage other = elim (Bool-cases (leb (suc j) k)) [
  | inl before ↦ inr (rw before refl)
  | inr not_before ↦
      let not_now : (suc j == k + 1) ≡ false = ground arith in inl (rw (not_before, not_now) refl)
]

pub Reach-Inv :
    (num_of_process processes : ℕ) {s : State Shared Place}
    → Reach (method num_of_process) processes begin s
    → Inv num_of_process s
Reach-Inv num_of_process processes r =
    Reach-invariant (method num_of_process) (Inv num_of_process) (start-Inv num_of_process)
      (λ t i s' q lt. step-Inv num_of_process t i s' q) r

-- Where the children stand is of the phase.
stage_of :
    {n : ℕ} {s : State Shared Place} (inv : Inv n s)
    → column_child (inv.k + 1) s.shared inv.stage ≢ none
    → (c : ℕ) × (column_child (suc c) s.shared (s.place (suc c)) ≢ none)
stage_of {n} {s} inv goes_on = (
  inv.k,
  λ e.
      let which : suc inv.k ≡ inv.k + 1 = omega arith in
      goes_on (rw (inv.children inv.k, at_stage n inv.k inv.k inv.stage refl, which) at e),
)

-- The children that have printed are those of the first rounds, in their order; either the loop has
-- ended and that are all of them, or a process can take a step.
abbrev pub IsInOrder : ℕ → State Shared Place → Type 0
IsInOrder n s =
    (m : ℕ) × (m ≤ n)
    × (s.shared.printed ≡ first_children m)
    × (((s.place 0 ≡ back) × (m ≡ n))
        ⊎ ((column_parent n s.shared (s.place 0) ≢ none)
            ⊎ ((c : ℕ) × (column_child (suc c) s.shared (s.place (suc c)) ≢ none))))

-- In every state the printing is in order, and of two children one has not begun or has ended.
pub column-IsInOrder :
    (num_of_process processes : ℕ) (i j : ℕ)
    → i ≢ j
    → {s : State Shared Place} (r : Reach (method num_of_process) processes begin s)
    → IsInOrder num_of_process s × (IsIdle (s.place (suc i)) ⊎ IsIdle (s.place (suc j)))
column-IsInOrder num_of_process processes i j two {s} r =
    let inv = Reach-Inv num_of_process processes r in
    let (m, low, printed, goes) = printed_so_far num_of_process inv.phase in
    (
      (
        m,
        low,
        printed,
        elim goes [
          | inl over ↦ inl over
          | inr moves ↦ elim moves [
            | inl parent ↦ inr (inl parent)
            | inr child ↦ inr (inr (stage_of inv child))
          ]
        ],
      ),
      elim (Bool-cases (i == inv.k)) [
        | inl same ↦
            let other : j ≢ inv.k = λ e. ground arith in
            inr (rw (inv.children j) (IsIdle-others inv.k j inv.stage other))
        | inr not_same ↦
            let other : i ≢ inv.k = λ e. ground arith in
            inl (rw (inv.children i) (IsIdle-others inv.k i inv.stage other))
      ],
    )
