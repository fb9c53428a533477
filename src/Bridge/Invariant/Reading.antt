-- ===== src/Bridge/Invariant/Reading.antt =====
-- Between reading a shared number and writing it back no other process changes it.
use sem.Prelude.{
  ℕ, ◌<◌, ◌≡◌, ◌⊎◌, refl, arith, update, update_all, some, true, false, Bool-cases, inl, inr,
  at_most_one, ◌==◌,
}
use sem.Process.{State}
use sem.Sems.{Semop, IsSemop, Outcome, next, waits, exits}
use sem.Bridge.{
  Shared, Place, arrive, add, store_more, store_less, added, queue, permitted, cross, subtract,
  choose, give_ship, give_car, leave_shared, leave_bridge, gone, exited, is_car, car_method,
  ship_method, num_of_semaphors, method, resume, Turn, ships_turn, pass_on,
}
use sem.Bridge.Invariant.Counts.{Reads, Held, in_shared}
use sem.Bridge.Invariant.Methods.{method-Inv}

Reads-apart : (s' : Shared) (j : ℕ) (q : Place) → in_shared j q ≡ 0 → Reads s' j q
Reads-apart s' j (store_more x) out = absurd (omega arith)
Reads-apart s' j (store_less x) out = absurd (omega arith)
Reads-apart s' j q out = tt

Reads-same : (s s' : Shared) (j : ℕ) (q : Place) → s'.shm ≡ s.shm → Reads s j q → Reads s' j q
Reads-same s s' j (store_more x) same reads = rw same reads
Reads-same s s' j (store_less x) same reads = rw same reads
Reads-same s s' j q same reads = tt

module _ (i : ℕ) (s' : Shared) (p' : Place) where
  landed :
      (x : Shared) (q : Place)
      → Reads x i q
      → ◌≡◌ {A = Turn} (some (x, q)) (some (s', p'))
      → Reads s' i p'
  landed x q reads e =
      let es : x ≡ s' = ground arith in let ep : q ≡ p' = ground arith in rw (← es, ← ep) reads

  resumed :
      (s : Shared) (m : Outcome) (q : Place)
      → ((x : Shared) → Reads x i q)
      → resume s m q ≡ some (s', p')
      → Reads s' i p'
  resumed s (next v) q reads e = landed (record s { sems = v }) q (reads (record s { sems = v })) e
  resumed s waits q reads e = cc
  resumed s exits q reads e = landed s exited tt e

  resumed_shm :
      (s : Shared) (m : Outcome) (q : Place) → resume s m q ≡ some (s', p') → s'.shm ≡ s.shm
  resumed_shm s (next v) q e = ground arith
  resumed_shm s waits q e = cc
  resumed_shm s exits q e = ground arith

  passed_on : (s : Shared) → pass_on s ≡ some (s', p') → Reads s' i p'
  passed_on s e = elim (Bool-cases (ships_turn s.shm)) [
    | inl ships ↦ landed _ give_ship tt (rw ships at e)
    | inr cars ↦ landed _ give_car tt (rw cars at e)
  ]

  module _ (semop : Semop) (s : Shared) where
    car_method-Reads :
        (p : Place) → is_car i ≡ true → car_method semop s p ≡ some (s', p') → Reads s' i p'
    unfolding car_method
    car_method-Reads arrive is e = resumed s _ add (λ x. tt) e
    car_method-Reads add is e = landed s _ (rw is refl) e
    car_method-Reads (store_more x) is e = landed _ added tt e
    car_method-Reads added is e = resumed s _ queue (λ x. tt) e
    car_method-Reads queue is e = resumed s _ permitted (λ x. tt) e
    car_method-Reads permitted is e = resumed s _ cross (λ x. tt) e
    car_method-Reads cross is e = resumed s _ subtract (λ x. tt) e
    car_method-Reads subtract is e = landed s _ (rw is refl) e
    car_method-Reads (store_less x) is e = landed _ choose tt e
    car_method-Reads choose is e = passed_on s e
    car_method-Reads give_ship is e = resumed s _ leave_shared (λ x. tt) e
    car_method-Reads give_car is e = resumed s _ leave_shared (λ x. tt) e
    car_method-Reads leave_shared is e = resumed s _ leave_bridge (λ x. tt) e
    car_method-Reads leave_bridge is e = resumed s _ gone (λ x. tt) e
    car_method-Reads p is e = cc

    -- Away from shared memory nothing in it changes.
    car_method-outside :
        (p : Place) → in_shared i p ≡ 0 → car_method semop s p ≡ some (s', p') → s'.shm ≡ s.shm
    unfolding car_method
    car_method-outside arrive out e = resumed_shm s _ add e
    car_method-outside queue out e = resumed_shm s _ permitted e
    car_method-outside permitted out e = resumed_shm s _ cross e
    car_method-outside cross out e = resumed_shm s _ subtract e
    car_method-outside leave_bridge out e = resumed_shm s _ gone e
    car_method-outside gone out e = cc
    car_method-outside exited out e = cc
    car_method-outside p out e = absurd (omega arith)

    ship_method-Reads :
        (p : Place) → is_car i ≡ false → ship_method semop s p ≡ some (s', p') → Reads s' i p'
    unfolding ship_method
    ship_method-Reads arrive is e = resumed s _ add (λ x. tt) e
    ship_method-Reads add is e = landed s _ (rw is refl) e
    ship_method-Reads (store_more x) is e = landed _ added tt e
    ship_method-Reads added is e = resumed s _ queue (λ x. tt) e
    ship_method-Reads queue is e = resumed s _ permitted (λ x. tt) e
    ship_method-Reads permitted is e = resumed s _ cross (λ x. tt) e
    ship_method-Reads cross is e = resumed s _ subtract (λ x. tt) e
    ship_method-Reads subtract is e = landed s _ (rw is refl) e
    ship_method-Reads (store_less x) is e = landed _ choose tt e
    ship_method-Reads choose is e = passed_on s e
    ship_method-Reads give_ship is e = resumed s _ leave_shared (λ x. tt) e
    ship_method-Reads give_car is e = resumed s _ leave_shared (λ x. tt) e
    ship_method-Reads leave_shared is e = resumed s _ leave_bridge (λ x. tt) e
    ship_method-Reads leave_bridge is e = resumed s _ gone (λ x. tt) e
    ship_method-Reads p is e = cc

    -- Away from shared memory nothing in it changes.
    ship_method-outside :
        (p : Place) → in_shared i p ≡ 0 → ship_method semop s p ≡ some (s', p') → s'.shm ≡ s.shm
    unfolding ship_method
    ship_method-outside arrive out e = resumed_shm s _ add e
    ship_method-outside queue out e = resumed_shm s _ permitted e
    ship_method-outside permitted out e = resumed_shm s _ cross e
    ship_method-outside cross out e = resumed_shm s _ subtract e
    ship_method-outside leave_bridge out e = resumed_shm s _ gone e
    ship_method-outside gone out e = cc
    ship_method-outside exited out e = cc
    ship_method-outside p out e = absurd (omega arith)

    method-Reads : (p : Place) → method semop i s p ≡ some (s', p') → Reads s' i p'
    method-Reads p e = elim (Bool-cases (is_car i)) [
      | inl is ↦ car_method-Reads p is (rw is at e)
      | inr is ↦ ship_method-Reads p is (rw is at e)
    ]

    method-outside :
        (p : Place) → in_shared i p ≡ 0 → method semop i s p ≡ some (s', p') → s'.shm ≡ s.shm
    method-outside p out e = elim (Bool-cases (is_car i)) [
      | inl is ↦ car_method-outside p out (rw is at e)
      | inr is ↦ ship_method-outside p out (rw is at e)
    ]

in_shared-cases : (i : ℕ) (p : Place) → (in_shared i p ≡ 0) ⊎ (in_shared i p ≡ 1)
in_shared-cases i add = inr refl
in_shared-cases i (store_more x) = inr refl
in_shared-cases i added = inr refl
in_shared-cases i subtract = inr refl
in_shared-cases i (store_less x) = inr refl
in_shared-cases i choose = inr refl
in_shared-cases i give_ship = inr refl
in_shared-cases i give_car = inr refl
in_shared-cases i leave_shared = inr refl
in_shared-cases i p = inl refl

-- A step of any process keeps the counts, and what the others have read.
pub method-Held :
    {semop : Semop}
    → IsSemop num_of_semaphors semop
    → (n : ℕ) (s : State Shared Place) (i : ℕ) (s' : Shared) (p' : Place) → Held n s
    → i < n
    → method semop i s.shared (s.place i) ≡ some (s', p')
    → Held n (record { shared = s'; place = update s.place i p' })
method-Held {semop} law n s i s' p' held lt e = record {
  counts = method-Inv law n s i s' p' held.counts lt (held.reads i lt) e;
  reads =
      update_all (λ j q. Reads s' j q) n s.place i p'
        (method-Reads i s' p' semop s.shared (s.place i) e) others;
}
  where
    others : (j : ℕ) → j < n → (i == j) ≡ false → Reads s' j (s.place j)
    others j j_in apart = elim (in_shared-cases i (s.place i)) [
      | inl out ↦
          Reads-same s.shared s' j (s.place j)
            (method-outside i s' p' semop s.shared (s.place i) out e) (held.reads j j_in)
      | inr inside ↦ elim (in_shared-cases j (s.place j)) [
        | inl away ↦ Reads-apart s' j (s.place j) away
        | inr within ↦
            let inv = held.counts in
            let same : i ≡ j =
              at_most_one in_shared n s.place i j (omega arith) lt j_in (omega arith)
                (omega arith) in
            absurd (ground arith)
      ]
    ]
