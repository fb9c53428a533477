-- ===== src/Herdsmen/Moves.antt =====
-- The kinds of steps that a herdsman takes, and how each keeps the invariant.
use sem.Prelude.{
  ℕ, ◌+◌, ◌<◌, ◌≡◌, refl, arith, ap, ◌∙◌, some, le-total, update, leb, ◌==◌, if◌then◌else◌,
  Bool-cases, ◌⊎◌, inl, inr,
}
use sem.Prelude.Int.{pos}
use sem.Process.{State}
use sem.Sems.{Semop, IsSemop, semvmx, p_oper, v_oper}
use sem.Sems.Laws.{p_oper_takes, v_oper_adds}
use sem.Herdsmen.{Shared, Place, exited, lock_up, up_queue, up, num_of_semaphors, Turn, resume}
use sem.Herdsmen.Invariant.{locks, counted, leads, hats, IsBefore, IsAbove, Phase, Inv}
use sem.Herdsmen.Phases.{step-Inv, quiet, beyond}

-- One of the semaphore `k`.
abbrev pub one_sem : ℕ → ℕ → ℕ
one_sem k j = if k == j then 1 else 0

module _ {semop : Semop} (law : IsSemop num_of_semaphors semop) (n : ℕ) (s : State Shared Place)
    (i : ℕ) (x : Shared) (q : Place) (lt : i < n) (inv : Inv n s) where
  abbrev pub After : Shared → Place → State Shared Place
  After y r = record { shared = y; place = update s.place i r }

  abbrev pub Target : Type 0
  Target = Inv n (After x q)

  -- All but the semaphores stays.
  abbrev pub Untouched : Shared → Type 0
  Untouched y = (y.upwait ≡ s.shared.upwait) × (y.downgo ≡ s.shared.downgo) × (y.hat ≡ s.shared.hat)

  pub landed :
      (y : Shared) (r : Place)
      → ◌≡◌ {A = Turn} (some (y, r)) (some (x, q))
      → Inv n (After y r)
      → Target
  landed y r e h =
      let ey : y ≡ x = ground arith in let er : r ≡ q = ground arith in rw (← ey, ← er) h

  -- A step that leaves Upwait and Downgo alone.
  pub kept :
      (p : Place) (at : s.place i ≡ p) (y : Shared) (r : Place)
      → y.upwait ≡ s.shared.upwait
      → y.downgo ≡ s.shared.downgo
      → y.sems lock_up + locks i r ≡ s.shared.sems lock_up + locks i p
      → counted i r ≡ counted i p
      → IsAbove r
      → Phase n (After y r)
      → Inv n (After y r)
  kept p at y r same_wait same_down lock count above phase =
      step-Inv n s i lt inv p at y r
        (record {
          lock = lock;
          wait = λ c small e. same_wait ∙ e ∙ ap pos (omega arith);
          downs = same_down;
          still_above = above;
        })
        phase

  -- What P of one and V of one do to the semaphores, where they return.
  pub took :
      (k : ℕ) (r : Place)
      → k < num_of_semaphors
      → resume s.shared (p_oper semop s.shared.sems k (pos 1)) r ≡ some (x, q)
      → ((j : ℕ) → x.sems j + one_sem k j ≡ s.shared.sems j) × Untouched x × (q ≡ r)
  took k r k_in e = (
    λ j. ground (arith, p_oper_takes law s.shared.sems k 1),
    (
      ground (arith, p_oper_takes law s.shared.sems k 1),
      ground (arith, p_oper_takes law s.shared.sems k 1),
      ground (arith, p_oper_takes law s.shared.sems k 1),
    ),
    ground (arith, p_oper_takes law s.shared.sems k 1),
  )

  gave :
      (k : ℕ) (r : Place)
      → k < num_of_semaphors
      → resume s.shared (v_oper semop s.shared.sems k (pos 1)) r ≡ some (x, q)
      → (((j : ℕ) → x.sems j ≡ s.shared.sems j + one_sem k j) × Untouched x × (q ≡ r))
        ⊎ ((x ≡ s.shared) × (q ≡ exited) × (semvmx < s.shared.sems k + 1))
  gave k r k_in e = elim (Bool-cases (leb (s.shared.sems k + 1) semvmx)) [
    | inl fits ↦ inl (
      λ j. ground (arith, v_oper_adds law s.shared.sems k 1),
      (
        ground (arith, v_oper_adds law s.shared.sems k 1),
        ground (arith, v_oper_adds law s.shared.sems k 1),
        ground (arith, v_oper_adds law s.shared.sems k 1),
      ),
      ground (arith, v_oper_adds law s.shared.sems k 1),
    )
    | inr full ↦ inr (
      ground (arith, v_oper_adds law s.shared.sems k 1),
      ground (arith, v_oper_adds law s.shared.sems k 1),
      ground arith,
    )
  ]

  -- Either a step among the places before the path, which counts the same, or one from behind it.
  abbrev pub Way : Place → Place → Type 0
  Way p r =
      ((IsBefore p → IsBefore r) × (leads i r ≡ leads i p) × (hats i r ≡ hats i p))
      ⊎ (IsBefore p → ⊥)

  Way-Phase :
      (p : Place) (at : s.place i ≡ p) (y : Shared) (r : Place)
      → Way p r
      → y.sems up ≡ s.shared.sems up
      → y.sems up_queue ≡ s.shared.sems up_queue
      → y.hat ≡ s.shared.hat
      → Phase n (After y r)
  Way-Phase p at y r (inl (keep, same_leads, same_hats)) same_up same_queue same_hat =
      quiet n s i lt inv p at y r keep same_up same_queue same_hat same_leads same_hats
  Way-Phase p at y r (inr off) same_up same_queue same_hat =
      beyond n s i lt inv p at y r off same_up

  -- A step that changes nothing that counts.
  pub walked :
      (p r : Place)
      → s.place i ≡ p
      → ◌≡◌ {A = Turn} (some (s.shared, r)) (some (x, q))
      → locks i r ≡ locks i p
      → counted i r ≡ counted i p
      → IsAbove r
      → Way p r
      → Target
  walked p r at e lock count above way = landed s.shared r e (
      kept p at s.shared r refl refl (omega arith) count above
        (Way-Phase p at s.shared r way refl refl refl))

  pub takes :
      (k : ℕ) (p r : Place)
      → k < num_of_semaphors
      → s.place i ≡ p
      → resume s.shared (p_oper semop s.shared.sems k (pos 1)) r ≡ some (x, q)
      → locks i r ≡ locks i p + one_sem k lock_up
      → (one_sem k up ≡ 0) × (one_sem k up_queue ≡ 0)
      → counted i r ≡ counted i p
      → IsAbove r
      → Way p r
      → Target
  takes k p r k_in at e lock (not_up, not_queue) count above way =
      let (less, (same_wait, same_down, same_hat), place_same) = took k r k_in e in
      rw place_same (
        kept p at x r same_wait same_down (omega (arith, less lock_up)) count above
          (Way-Phase p at x r way (omega (arith, less up)) (omega (arith, less up_queue)) same_hat))

  -- V(LOCK_UP), by who has taken it.
  pub unlocks :
      (p r : Place)
      → s.place i ≡ p
      → resume s.shared (v_oper semop s.shared.sems lock_up (pos 1)) r ≡ some (x, q)
      → locks i p ≡ 1
      → locks i r ≡ 0
      → counted i r ≡ counted i p
      → IsAbove r
      → Way p r
      → Target
  unlocks p r at e own none_left count above way = elim (gave lock_up r (omega arith) e) [
    | inl (more, (same_wait, same_down, same_hat), place_same) ↦ rw place_same (
        kept p at x r same_wait same_down (omega (arith, more lock_up)) count above
          (Way-Phase p at x r way (omega (arith, more up)) (omega (arith, more up_queue)) same_hat))
    | inr (same, place_same, full) ↦
        absurd (omega (arith, full, inv.one_locks, le-total locks n s.place i lt, ap (locks i) at))
  ]

  -- V by a herdsman behind the path, who has taken LOCK_UP.
  pub calls :
      (k : ℕ) (p r : Place)
      → k < num_of_semaphors
      → s.place i ≡ p
      → resume s.shared (v_oper semop s.shared.sems k (pos 1)) r ≡ some (x, q)
      → (one_sem k up ≡ 0) × (one_sem k lock_up ≡ 0)
      → (locks i p ≡ 1) × (locks i r ≡ 1) × (counted i p ≡ 0) × (counted i r ≡ 0)
      → IsAbove r
      → (IsBefore p → ⊥)
      → Target
  calls k p r k_in at e (not_up, not_lock) (own, still, out, still_out) above off =
      elim (gave k r k_in e) [
        | inl (more, (same_wait, same_down, same_hat), place_same) ↦ rw place_same (
            kept p at x r same_wait same_down (omega (arith, more lock_up)) (omega arith) above
              (beyond n s i lt inv p at x r off (omega (arith, more up))))
        | inr (same, place_same, full) ↦
            rw (same, place_same)
              (kept p at s.shared exited refl refl (omega arith) (omega arith) tt
                (beyond n s i lt inv p at s.shared exited off refl))
      ]
