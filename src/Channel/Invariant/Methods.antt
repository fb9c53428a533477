-- ===== src/Channel/Invariant/Methods.antt =====
-- Every step of the server and of a client keeps the invariant of the channel.
use sem.Prelude.{
  ℕ, ◌+◌, ◌<◌, ◌≤◌, ◌≡◌, refl, arith, update, Bool, true, false, none, some, List, [], ◌∷◌, ◌==◌,
  if◌then◌else◌, Bool-cases, inl, inr, ==_iff,
}
use sem.Prelude.Int.{pos}
use sem.Process.{State}
use sem.Sems.{Semop, IsSemop, p_oper, v_oper, z_oper}
use sem.Sems.Laws.{p_oper_takes, v_oper_adds, z_oper_lem}
use sem.Channel.{
  Arg, close_file, closed, Shared, Place, open_channel, wait_memory, print_buffer, free_channel,
  wait_taken, next_file, take_channel, fill, give_memory, wait_printed, give_channel, done, server,
  client, method, channel, memory, num_of_semaphors, resume, Turn,
}
use sem.Channel.Invariant.{Inv, owes, rests, has_exited, AtHome, sendable, unsent}
use sem.Channel.Invariant.Steps.{quiet-Inv, print-Inv, fill-Inv}

-- One of the semaphore `k`.
abbrev unit : ℕ → ℕ → ℕ
unit k j = if k == j then 1 else 0

-- The shared state but for the semaphores.
abbrev Untouched : Shared → Shared → Type 0
Untouched s s' = (s'.main_buffer ≡ s.main_buffer) × (s'.output ≡ s.output) × (s'.sent ≡ s.sent)

module _ {semop : Semop} (law : IsSemop num_of_semaphors semop) (s s' : Shared) (p' : Place) where
  took_lem :
      (k : ℕ) (q : Place)
      → k < num_of_semaphors
      → resume s (p_oper semop s.sems k (pos 1)) q ≡ some (s', p')
      → ((j : ℕ) → s'.sems j + unit k j ≡ s.sems j) × Untouched s s' × (p' ≡ q)
  took_lem k q lt e = (
    λ j. ground (arith, p_oper_takes law s.sems k 1),
    ground (arith, p_oper_takes law s.sems k 1),
    ground (arith, p_oper_takes law s.sems k 1),
  )

  gave_lem :
      (k : ℕ) (q : Place)
      → k < num_of_semaphors
      → s.sems k ≤ 1
      → resume s (v_oper semop s.sems k (pos 1)) q ≡ some (s', p')
      → ((j : ℕ) → s'.sems j ≡ s.sems j + unit k j) × Untouched s s' × (p' ≡ q)
  gave_lem k q lt low e = (
    λ j. ground (arith, v_oper_adds law s.sems k 1),
    ground (arith, v_oper_adds law s.sems k 1),
    ground (arith, v_oper_adds law s.sems k 1),
  )

  passed_lem :
      (k : ℕ) (q : Place)
      → k < num_of_semaphors
      → resume s (z_oper semop s.sems k) q ≡ some (s', p')
      → ((j : ℕ) → s'.sems j ≡ s.sems j) × Untouched s s' × (p' ≡ q)
  passed_lem k q lt e = (
    λ j. ground (arith, z_oper_lem law s.sems k),
    ground (arith, z_oper_lem law s.sems k),
    ground (arith, z_oper_lem law s.sems k),
  )

module _ {semop : Semop} (law : IsSemop num_of_semaphors semop) (n : ℕ) (files : ℕ → List Arg)
    (s : State Shared Place) (i : ℕ) (s' : Shared) (p' : Place) (lt : i < n)
    (inv : Inv n files s) where
  abbrev Target : Type 0
  Target = Inv n files (record { shared = s'; place = update s.place i p' })

  took :
      (k : ℕ) (p q : Place)
      → k < num_of_semaphors
      → s.place i ≡ p
      → resume s.shared (p_oper semop s.shared.sems k (pos 1)) q ≡ some (s', p')
      → (rests i q ≡ rests i p + unit k channel)
        × (owes i q ≡ owes i p + unit k memory)
        × (has_exited i q ≡ 0)
      → AtHome i q
      → unsent q ≡ unsent p
      → Target
  took k p q k_in at e (more, owe, ok) home same =
      let (v, kept, e_place) = took_lem law s.shared s' p' k q k_in e in
      rw e_place (
        quiet-Inv n files s i s' q lt inv p at kept
          (omega (arith, v channel), omega (arith, v memory), ok) home same)

  gave :
      (k : ℕ) (p q : Place)
      → k < num_of_semaphors
      → s.shared.sems k ≤ 1
      → s.place i ≡ p
      → resume s.shared (v_oper semop s.shared.sems k (pos 1)) q ≡ some (s', p')
      → (rests i p ≡ rests i q + unit k channel)
        × (owes i p ≡ owes i q + unit k memory)
        × (has_exited i q ≡ 0)
      → AtHome i q
      → unsent q ≡ unsent p
      → Target
  gave k p q k_in low at e (more, owe, ok) home same =
      let (v, kept, e_place) = gave_lem law s.shared s' p' k q k_in low e in
      rw e_place (
        quiet-Inv n files s i s' q lt inv p at kept
          (omega (arith, v channel), omega (arith, v memory), ok) home same)

  passed :
      (k : ℕ) (p q : Place)
      → k < num_of_semaphors
      → s.place i ≡ p
      → resume s.shared (z_oper semop s.shared.sems k) q ≡ some (s', p')
      → (rests i q ≡ rests i p) × (owes i q ≡ owes i p) × (has_exited i q ≡ 0)
      → AtHome i q
      → unsent q ≡ unsent p
      → Target
  passed k p q k_in at e (more, owe, ok) home same =
      let (v, kept, e_place) = passed_lem law s.shared s' p' k q k_in e in
      rw e_place (
        quiet-Inv n files s i s' q lt inv p at kept
          (omega (arith, v channel), omega (arith, v memory), ok) home same)

  -- A step that changes only where the process stands.
  walked :
      (p q : Place)
      → s.place i ≡ p
      → ◌≡◌ {A = Turn} (some (s.shared, q)) (some (s', p'))
      → (rests i q ≡ rests i p) × (owes i q ≡ owes i p) × (has_exited i q ≡ 0)
      → AtHome i q
      → unsent q ≡ unsent p
      → Target
  walked p q at e (more, owe, ok) home same =
      let e_place : p' ≡ q = ground arith in
      let kept : Untouched s.shared s' = ground arith in
      let v : (j : ℕ) → s'.sems j ≡ s.shared.sems j = λ j. ground arith in
      rw e_place (
        quiet-Inv n files s i s' q lt inv p at kept
          (omega (arith, v channel), omega (arith, v memory), ok) home same)

  landed :
      (x : Shared) (q : Place)
      → ◌≡◌ {A = Turn} (some (x, q)) (some (s', p'))
      → Inv n files (record { shared = x; place = update s.place i q })
      → Target
  landed x q e h =
      let es : x ≡ s' = ground arith in let ep : q ≡ p' = ground arith in rw (← es, ← ep) h

  free : (s.shared.sems channel ≤ 1) × (s.shared.sems memory ≤ 1)
  free = omega arith

  server-Inv :
      (p : Place) → i ≡ 0 → s.place i ≡ p → server semop s.shared p ≡ some (s', p') → Target
  unfolding server
  server-Inv open_channel zeroth at e =
      gave channel open_channel wait_memory (omega arith) free.0 at e (refl, refl, refl) zeroth refl
  server-Inv wait_memory zeroth at e =
      took memory wait_memory print_buffer (omega arith) at e (refl, refl, refl) zeroth refl
  server-Inv print_buffer zeroth at e =
      landed _ free_channel e (print-Inv n files s i lt inv at zeroth)
  server-Inv free_channel zeroth at e =
      gave channel free_channel wait_taken (omega arith) free.0 at e (refl, refl, refl) zeroth refl
  server-Inv wait_taken zeroth at e =
      passed channel wait_taken wait_memory (omega arith) at e (refl, refl, refl) zeroth refl
  server-Inv p zeroth at e = cc

  closed_lem :
      (closes : Bool) (args : List Arg)
      → 0 < i
      → ((rests i (closed closes args) ≡ 0)
          × (owes i (closed closes args) ≡ 0)
          × (has_exited i (closed closes args) ≡ 0))
        × AtHome i (closed closes args)
        × (unsent (closed closes args) ≡ (if closes then sendable args else []))
  closed_lem true args own = ((refl, refl, refl), own, refl)
  closed_lem false args own = ((refl, refl, refl), own, refl)

  client-Inv :
      (p : Place) → 0 < i → s.place i ≡ p → client semop i s.shared p ≡ some (s', p') → Target
  unfolding client sendable
  client-Inv (next_file []) own at e = walked (next_file []) done at e (refl, refl, refl) own refl
  client-Inv (next_file (none ∷ more)) own at e =
      walked (next_file (none ∷ more)) done at e (refl, refl, refl) own refl
  client-Inv (next_file (some (file, closes) ∷ args)) own at e =
      walked (next_file (some (file, closes) ∷ args))
        (take_channel file (record { closes = closes; args = args })) at e (refl, refl, refl) own
        refl
  client-Inv (take_channel file more) own at e =
      took channel (take_channel file more) (fill file more) (omega arith) at e (refl, refl, refl)
        own refl
  client-Inv (fill [] more) own at e =
      walked (fill [] more) (give_channel more) at e (refl, refl, refl) own refl
  client-Inv (fill (line ∷ file) more) own at e =
      landed _ (give_memory file more) e (fill-Inv n files s i lt inv line file more at own)
  client-Inv (give_memory file more) own at e =
      gave memory (give_memory file more) (wait_printed file more) (omega arith) free.1 at e
        (refl, refl, refl) own refl
  client-Inv (wait_printed file more) own at e =
      passed memory (wait_printed file more) (take_channel file more) (omega arith) at e
        (refl, refl, refl) own refl
  client-Inv (give_channel more) own at e =
      gave channel (give_channel more) (close_file more) (omega arith) free.0 at e
        (refl, refl, refl) own refl
  client-Inv (close_file more) own at e =
      let (counts, home, same) = closed_lem more.closes more.args own in
      walked (close_file more) (closed more.closes more.args) at e counts home same
  client-Inv p own at e = cc

  -- A step of any process keeps the invariant.
  pub method-Inv : method semop i s.shared (s.place i) ≡ some (s', p') → Target
  method-Inv e = elim (Bool-cases (i == 0)) [
    | inl first ↦ server-Inv (s.place i) ((==_iff i 0).0 first) refl (rw first at e)
    | inr other ↦ client-Inv (s.place i) (ground arith) refl (rw other at e)
  ]
