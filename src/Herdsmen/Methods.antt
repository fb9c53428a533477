-- ===== src/Herdsmen/Methods.antt =====
-- Every step of a herdsman keeps the invariant.
use sem.Prelude.{ℕ, ◌<◌, ◌≡◌, refl, some, update, ◌⊎◌, inl, inr}
use sem.Process.{State}
use sem.Sems.{Semop, IsSemop}
use sem.Herdsmen.{
  Shared, Place, come, count_wait, test_first, enter_queue, in_queue, test_hat, leave_herd, at_top,
  put_hat, hat_put, close_top, enter_path, num_of_semaphors, herdsman,
}
use sem.Herdsmen.Invariant.{IsBefore, Inv}
use sem.Herdsmen.Before.{before-Inv}
use sem.Herdsmen.Behind.{behind-Inv}

IsBefore-cases : (p : Place) → IsBefore p ⊎ (IsBefore p → ⊥)
IsBefore-cases come = inl tt
IsBefore-cases count_wait = inl tt
IsBefore-cases test_first = inl tt
IsBefore-cases enter_queue = inl tt
IsBefore-cases in_queue = inl tt
IsBefore-cases test_hat = inl tt
IsBefore-cases leave_herd = inl tt
IsBefore-cases at_top = inl tt
IsBefore-cases put_hat = inl tt
IsBefore-cases hat_put = inl tt
IsBefore-cases close_top = inl tt
IsBefore-cases enter_path = inl tt
IsBefore-cases p = inr (λ b. b)

pub method-Inv :
    {semop : Semop}
    → IsSemop num_of_semaphors semop
    → (n : ℕ) (s : State Shared Place) (i : ℕ) (x : Shared) (q : Place) → i < n
    → Inv n s
    → herdsman semop s.shared (s.place i) ≡ some (x, q)
    → Inv n (record { shared = x; place = update s.place i q })
method-Inv law n s i x q lt inv e = elim (IsBefore-cases (s.place i)) [
  | inl b ↦ before-Inv law n s i x q lt inv (s.place i) refl b e
  | inr off ↦ behind-Inv law n s i x q lt inv (s.place i) refl off (inv.above i lt) e
]
