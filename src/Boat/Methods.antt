-- ===== src/Boat/Methods.antt =====
-- Every step of the captain and of a passenger keeps the counts of the stair and of the boat.
use sem.Prelude.{
  ℕ, ◌+◌, ◌<◌, ◌≤◌, ◌≡◌, refl, arith, ap, true, some, update, le-total, ltb, leb, ◌==◌,
  if◌then◌else◌, Bool-cases, ◌⊎◌, inl, inr,
}
use sem.Prelude.Int.{pos}
use sem.Process.{State}
use sem.Sems.{Values, Semop, IsSemop, semvmx, p_oper, v_oper, z_oper}
use sem.Sems.Laws.{p_oper_takes, v_oper_adds, z_oper_lem}
use sem.Boat.{
  Place, board, look, book, look_again, go_up, on_stair_up, seated, sailing, arrived, go_down,
  on_stair_down, on_island, on_coast, went_away, gave_up, lower_stair, prepare, trip, wait_full,
  close_stair, remove_stair, stair_removed, start_trip, end_trip, open_stair, wait_empty, reset_end,
  reset_coast, next_trip, ashore, exited, Turn, resume, unless_last, passengers, captain, Arguments,
  places_of, method, num_of_semaphors, stair_down, start_of_trip, num_on_boat, num_on_stair,
  end_of_trip, num_on_coast, last_trip,
}
use sem.Boat.Invariant.{stair, aboard, Inv, step-Inv}

-- `c` of the semaphore `k`.
abbrev of_sem : ℕ → ℕ → ℕ → ℕ
of_sem k c j = if k == j then c else 0

module _ {semop : Semop} (law : IsSemop num_of_semaphors semop) (n cap places : ℕ)
    (s : State Values Place) (i : ℕ) (v : Values) (q : Place) (lt : i < n)
    (inv : Inv n cap places s) where
  abbrev Target : Type 0
  Target = Inv n cap places (record { shared = v; place = update s.place i q })

  landed :
      (x : Values) (r : Place)
      → ◌≡◌ {A = Turn} (some (x, r)) (some (v, q))
      → Inv n cap places (record { shared = x; place = update s.place i r })
      → Target
  landed x r e h =
      let ev : x ≡ v = ground arith in let eq : r ≡ q = ground arith in rw (← ev, ← eq) h

  -- A step that leaves the two counts alone.
  walked :
      (p r : Place)
      → s.place i ≡ p
      → ◌≡◌ {A = Turn} (some (s.shared, r)) (some (v, q))
      → stair cap i r ≡ stair cap i p
      → aboard i r ≡ aboard i p
      → Target
  walked p r at e h k =
      landed s.shared r e
        (step-Inv n cap places s i s.shared p r lt inv at (omega arith) (omega arith))

  took :
      (k c : ℕ) (p r : Place)
      → k < num_of_semaphors
      → 1 ≤ c
      → c ≤ semvmx
      → s.place i ≡ p
      → resume s.shared (p_oper semop s.shared k (pos c)) r ≡ some (v, q)
      → stair cap i r ≡ stair cap i p + of_sem k c num_on_stair
      → aboard i r ≡ aboard i p + of_sem k c num_on_boat
      → Target
  took k c p r k_in some_c low at e h b =
      let place_same : q ≡ r = ground (arith, p_oper_takes law s.shared k c) in
      let less : (j : ℕ) → v j + of_sem k c j ≡ s.shared j =
        λ j. ground (arith, p_oper_takes law s.shared k c) in
      rw place_same (
        step-Inv n cap places s i v p r lt inv at (omega (arith, less num_on_stair))
          (omega (arith, less num_on_boat)))

  passed :
      (k : ℕ) (p r : Place)
      → k < num_of_semaphors
      → s.place i ≡ p
      → resume s.shared (z_oper semop s.shared k) r ≡ some (v, q)
      → stair cap i r ≡ stair cap i p
      → aboard i r ≡ aboard i p
      → Target
  passed k p r k_in at e h b =
      let place_same : q ≡ r = ground (arith, z_oper_lem law s.shared k) in
      let same : (j : ℕ) → v j ≡ s.shared j = λ j. ground (arith, z_oper_lem law s.shared k) in
      rw place_same (
        step-Inv n cap places s i v p r lt inv at (omega (arith, same num_on_stair))
          (omega (arith, same num_on_boat)))

  -- An operation that fails ends a process only where it has nothing to give back.
  gave :
      (k c : ℕ) (p r : Place)
      → k < num_of_semaphors
      → 1 ≤ c
      → c ≤ semvmx
      → s.place i ≡ p
      → resume s.shared (v_oper semop s.shared k (pos c)) r ≡ some (v, q)
      → stair cap i p ≡ stair cap i r + of_sem k c num_on_stair
      → aboard i p ≡ aboard i r + of_sem k c num_on_boat
      → (s.shared k + c ≤ semvmx) ⊎ ((stair cap i p ≡ 0) × (aboard i p ≡ 0))
      → Target
  gave k c p r k_in some_c low at e h b room = elim (Bool-cases (leb (s.shared k + c) semvmx)) [
    | inl fits ↦
        let place_same : q ≡ r = ground (arith, v_oper_adds law s.shared k c) in
        let more : (j : ℕ) → v j ≡ s.shared j + of_sem k c j =
          λ j. ground (arith, v_oper_adds law s.shared k c) in
        rw place_same (
          step-Inv n cap places s i v p r lt inv at (omega (arith, more num_on_stair))
            (omega (arith, more num_on_boat)))
    | inr full ↦
        let place_same : q ≡ exited = ground (arith, v_oper_adds law s.shared k c) in
        let same : (j : ℕ) → v j ≡ s.shared j = λ j. ground (arith, v_oper_adds law s.shared k c) in
        elim room [
          | inl fits ↦ absurd (ground arith)
          | inr empty ↦ rw place_same (
              step-Inv n cap places s i v p exited lt inv at
                (omega (arith, same num_on_stair, empty.0))
                (omega (arith, same num_on_boat, empty.1)))
        ]
  ]

  module _ (some_cap : 1 ≤ cap) (low_cap : cap ≤ semvmx) (low_places : places ≤ semvmx) where
    stair_room : (p : Place) → s.place i ≡ p → s.shared num_on_stair + stair cap i p ≤ semvmx
    stair_room p at =
        omega (arith, inv.on_stair, le-total (stair cap) n s.place i lt, ap (stair cap i) at)

    boat_room : (p : Place) → s.place i ≡ p → s.shared num_on_boat + aboard i p ≤ semvmx
    boat_room p at = omega (arith, inv.on_boat, le-total aboard n s.place i lt, ap (aboard i) at)

    looked :
        (p away r : Place)
        → s.place i ≡ p
        → unless_last s.shared away r ≡ some (v, q)
        → stair cap i away ≡ stair cap i p
        → stair cap i r ≡ stair cap i p
        → aboard i away ≡ aboard i p
        → aboard i r ≡ aboard i p
        → Target
    looked p away r at e h h' b b' = elim (Bool-cases (s.shared last_trip == 0)) [
      | inl more ↦ walked p r at (rw more at e) h' b'
      | inr last ↦ walked p away at (rw last at e) h b
    ]

    passengers-Inv :
        (p : Place) → s.place i ≡ p → passengers semop s.shared p ≡ some (v, q) → Target
    unfolding passengers
    passengers-Inv (board flag) at e =
        passed stair_down (board flag) (look flag) (omega arith) at e refl refl
    passengers-Inv (look flag) at e =
        looked (look flag) (went_away flag) (book flag) at e refl refl refl refl
    passengers-Inv (book flag) at e =
        took num_on_boat 1 (book flag) (look_again flag) (omega arith) (omega arith) (omega arith)
          at e refl refl
    passengers-Inv (look_again flag) at e =
        looked (look_again flag) (gave_up flag) (go_up flag) at e refl refl refl refl
    passengers-Inv (go_up flag) at e =
        took num_on_stair 1 (go_up flag) on_stair_up (omega arith) (omega arith) (omega arith) at e
          refl refl
    passengers-Inv on_stair_up at e =
        gave num_on_stair 1 on_stair_up seated (omega arith) (omega arith) (omega arith) at e refl
          refl (inl (stair_room on_stair_up at))
    passengers-Inv seated at e = passed start_of_trip seated sailing (omega arith) at e refl refl
    passengers-Inv sailing at e = passed end_of_trip sailing arrived (omega arith) at e refl refl
    passengers-Inv arrived at e = passed stair_down arrived go_down (omega arith) at e refl refl
    passengers-Inv go_down at e =
        took num_on_stair 1 go_down on_stair_down (omega arith) (omega arith) (omega arith) at e
          refl refl
    passengers-Inv on_stair_down at e =
        gave num_on_stair 1 on_stair_down on_island (omega arith) (omega arith) (omega arith) at e
          refl refl (inl (stair_room on_stair_down at))
    passengers-Inv on_island at e =
        gave num_on_boat 1 on_island on_coast (omega arith) (omega arith) (omega arith) at e refl
          refl (inl (boat_room on_island at))
    passengers-Inv on_coast at e =
        took num_on_coast 1 on_coast (board true) (omega arith) (omega arith) (omega arith) at e
          refl refl
    passengers-Inv p at e = cc

    module _ (num_of_trips cap_of_boat : ℕ) (some_boat : 1 ≤ cap_of_boat)
        (low_boat : cap_of_boat ≤ semvmx) where
      captain-Inv :
          (p : Place)
          → s.place i ≡ p
          → captain semop num_of_trips cap cap_of_boat s.shared p ≡ some (v, q)
          → Target
      unfolding captain
      captain-Inv lower_stair at e =
          took stair_down 1 lower_stair prepare (omega arith) (omega arith) (omega arith) at e refl
            refl
      captain-Inv prepare at e =
          took start_of_trip 1 prepare (trip 0) (omega arith) (omega arith) (omega arith) at e refl
            refl
      captain-Inv (trip k) at e = elim (Bool-cases (ltb k num_of_trips)) [
        | inl more ↦ elim (Bool-cases (k + 1 == num_of_trips)) [
          | inl last ↦
              gave last_trip 1 (trip k) (wait_full k) (omega arith) (omega arith) (omega arith) at
                (rw (more, last) at e) refl refl (inr (refl, refl))
          | inr not_last ↦ walked (trip k) (wait_full k) at (rw (more, not_last) at e) refl refl
        ]
        | inr all ↦ walked (trip k) ashore at (rw all at e) refl refl
      ]
      captain-Inv (wait_full k) at e =
          passed num_on_boat (wait_full k) (close_stair k) (omega arith) at e refl refl
      captain-Inv (close_stair k) at e =
          gave stair_down 1 (close_stair k) (remove_stair k) (omega arith) (omega arith)
            (omega arith) at e refl refl (inr (refl, refl))
      captain-Inv (remove_stair k) at e =
          took num_on_stair cap (remove_stair k) (stair_removed k) (omega arith) some_cap low_cap at
            e (omega arith) refl
      captain-Inv (stair_removed k) at e =
          gave num_on_stair cap (stair_removed k) (start_trip k) (omega arith) some_cap low_cap at e
            (omega arith) refl (inl (stair_room (stair_removed k) at))
      captain-Inv (start_trip k) at e =
          gave start_of_trip 1 (start_trip k) (end_trip k) (omega arith) (omega arith) (omega arith)
            at e refl refl (inr (refl, refl))
      captain-Inv (end_trip k) at e =
          took end_of_trip 1 (end_trip k) (open_stair k) (omega arith) (omega arith) (omega arith)
            at e refl refl
      captain-Inv (open_stair k) at e =
          took stair_down 1 (open_stair k) (wait_empty k) (omega arith) (omega arith) (omega arith)
            at e refl refl
      captain-Inv (wait_empty k) at e =
          passed num_on_coast (wait_empty k) (reset_end k) (omega arith) at e refl refl
      captain-Inv (reset_end k) at e =
          gave end_of_trip 1 (reset_end k) (reset_coast k) (omega arith) (omega arith) (omega arith)
            at e refl refl (inr (refl, refl))
      captain-Inv (reset_coast k) at e =
          gave num_on_coast cap_of_boat (reset_coast k) (next_trip k) (omega arith) some_boat
            low_boat at e refl refl (inr (refl, refl))
      captain-Inv (next_trip k) at e = elim (Bool-cases (k + 1 == num_of_trips)) [
        | inl last ↦ walked (next_trip k) ashore at (rw last at e) refl refl
        | inr not_last ↦
            took start_of_trip 1 (next_trip k) (trip (k + 1)) (omega arith) (omega arith)
              (omega arith) at (rw not_last at e) refl refl
      ]
      captain-Inv p at e = cc

-- The numbers that the semaphores can hold.
pub record IsSmall (args : Arguments) : Type 0 where
  pub some_pass : 1 ≤ args.num_of_pass
  pub low_pass : args.num_of_pass ≤ semvmx
  pub some_boat : 1 ≤ args.cap_of_boat
  pub some_stair : 1 ≤ args.cap_of_stair
  pub low_stair : args.cap_of_stair ≤ semvmx

pub places_small :
    (args : Arguments) → IsSmall args → (1 ≤ places_of args) × (places_of args ≤ semvmx)
places_small args small = ground arith

pub method-Inv :
    {semop : Semop}
    → IsSemop num_of_semaphors semop
    → (args : Arguments) → IsSmall args
    → (n : ℕ) (s : State Values Place) (i : ℕ) (v : Values) (q : Place) → i < n
    → Inv n args.cap_of_stair (places_of args) s
    → method semop args i s.shared (s.place i) ≡ some (v, q)
    → Inv n args.cap_of_stair (places_of args) (record { shared = v; place = update s.place i q })
method-Inv law args small n s i v q lt inv e =
    let (some_places, low_places) = places_small args small in
    elim (Bool-cases (i == 0)) [
      | inl zeroth ↦
          captain-Inv law n args.cap_of_stair (places_of args) s i v q lt inv small.some_stair
            small.low_stair low_places args.num_of_trips (places_of args) some_places low_places
            (s.place i) refl (rw zeroth at e)
      | inr other ↦
          passengers-Inv law n args.cap_of_stair (places_of args) s i v q lt inv small.some_stair
            small.low_stair low_places (s.place i) refl (rw other at e)
    ]
