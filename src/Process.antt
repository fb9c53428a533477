-- ===== src/Process.antt =====
-- Processes or threads that a program starts and then lets run: `n` of them, each a place in its
-- code, over what they share. They take their steps in any order, one at a time.
use sem.Prelude.{
  ℕ, suc, ◌+◌, ◌≤◌, arith, total, total-update, ◌<◌, ◌≡◌, refl, List, [], ◌∷◌, Option, some, none,
  if◌then◌else◌, update, ltb, Bool-cases, inl, inr, ltb→lt,
}

pub record State (S P : Type 0) : Type 0 where
  pub shared : S
  pub place : ℕ → P

-- `method i s p`: what process `i` makes of the shared `s` from the place `p`, and where it stands
-- then; `none` where it waits or has ended.
module _ {S P : Type 0} (method : ℕ → S → P → Option (S × P)) where
  pub data Step (n : ℕ) (s : State S P) : State S P → Type 0 where
    run :
        (i : ℕ) {shared' : S} {p : P}
        → i < n
        → method i s.shared (s.place i) ≡ some (shared', p)
        → Step n s (record { shared = shared'; place = update s.place i p })

  -- The states that `n` processes can bring about from `z`.
  pub data Reach (n : ℕ) (z : State S P) : State S P → Type 0 where
    start : Reach n z z
    later : {s t : State S P} → Reach n z s → Step n s t → Reach n z t

  -- What holds at the start and is kept by every step of a process holds in every state.
  pub Reach-invariant {ℓ} :
      {n : ℕ} {z : State S P} (I : State S P → Type ℓ)
      → I z
      → ((s : State S P) (i : ℕ) (shared' : S) (p : P)
          → i < n
          → I s
          → method i s.shared (s.place i) ≡ some (shared', p)
          → I (record { shared = shared'; place = update s.place i p }))
      → {s : State S P} → Reach n z s
      → I s
  Reach-invariant I first keep start = first
  Reach-invariant I first keep (later {s} r (run i {shared'} {p} lt e)) =
      keep s i shared' p lt (Reach-invariant I first keep r) e

  -- The same by evaluation: the processes that are named run in turn, and one that waits is passed.
  land : State S P → ℕ → Option (S × P) → State S P
  land s i none = s
  land s i (some (shared', p)) = record { shared = shared'; place = update s.place i p }

  unfoldable pub schedule : ℕ → State S P → List ℕ → State S P
  unfolding land
  schedule n s [] = s
  schedule n s (i ∷ is) =
      schedule n (if ltb i n then land s i (method i s.shared (s.place i)) else s) is

  land-Reach :
      {n : ℕ} {z : State S P} (s : State S P) (i : ℕ) (m : Option (S × P))
      → i < n
      → Reach n z s
      → method i s.shared (s.place i) ≡ m
      → Reach n z (land s i m)
  unfolding land
  land-Reach s i none lt r e = r
  land-Reach s i (some (shared', p)) lt r e = later r (run i lt e)

  pub schedule-Reach :
      {n : ℕ} {z : State S P} (s : State S P) (is : List ℕ)
      → Reach n z s
      → Reach n z (schedule n s is)
  unfolding schedule
  schedule-Reach s [] r = r
  schedule-Reach {n} s (i ∷ is) r = elim (Bool-cases (ltb i n)) [
    | inl lt ↦ rw lt (
        schedule-Reach (land s i (method i s.shared (s.place i))) is
          (land-Reach s i (method i s.shared (s.place i)) (ltb→lt i n lt) r refl))
    | inr ge ↦ rw ge (schedule-Reach s is r)
  ]

  -- A run of a run.
  pub Reach-trans :
      {n : ℕ} {y z : State S P} → Reach n y z → {s : State S P} → Reach n z s → Reach n y s
  Reach-trans r start = r
  Reach-trans r (later q st) = later (Reach-trans r q) st

  -- How many steps a run has.
  unfoldable pub steps : {n : ℕ} {z s : State S P} → Reach n z s → ℕ
  steps start = 0
  steps (later r st) = suc (steps r)

  -- A measure that every step of a process lowers bounds the steps of a run.
  pub steps-bound :
      {n : ℕ} {z : State S P} (I : State S P → Type 0) (work : ℕ → P → ℕ)
      → ((s : State S P) → Reach n z s → I s)
      → ((s : State S P) (i : ℕ) (shared' : S) (p : P)
          → i < n
          → I s
          → method i s.shared (s.place i) ≡ some (shared', p)
          → work i p < work i (s.place i))
      → {s : State S P} (r : Reach n z s) → steps r + total work n s.place ≤ total work n z.place
  unfolding steps
  steps-bound I work holds lower start = omega arith
  steps-bound {n} I work holds lower (later {s} r (run i {shared'} {p} lt e)) = omega (
    arith,
    steps-bound I work holds lower r,
    lower s i shared' p lt (holds s r) e,
    total-update work n s.place i p lt,
  )
