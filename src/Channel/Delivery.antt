-- ===== src/Channel/Delivery.antt =====
-- What the clients send is printed, in the order in which it was stored, and nothing else.
use mathlib.Core.List.{append-nil}
use sem.Prelude.{
  ℕ, zero, suc, ◌+◌, ◌<◌, ◌≡◌, ◌≢◌, refl, arith, total, total-add, total-zero, total-suc,
  total-eq-zero, at_most_one, some, List, [], ◌++◌, ◌==◌, if◌then◌else◌, false, ◌⊎◌, inl, inr,
  dec_lt,
}
use sem.Process.{State, Reach, Reach-invariant}
use sem.Sems.{Semop, IsSemop}
use sem.Channel.{
  Arg, Shared, Place, open_channel, next_file, done, method, begin, channel, memory,
  num_of_semaphors, c_string,
}
use sem.Channel.Invariant.{
  Inv, owes, rests, owns, has_exited, AtHome, text, sent_by, sendable, unsent, owed,
}
use sem.Channel.Invariant.Methods.{method-Inv}
use sem.Channel.Progress.{busy_moves, free_moves}

abbrev first_places : (ℕ → List Arg) → ℕ → Place
first_places files i = if i == 0 then open_channel else next_file (files i)

rests-first_places : (files : ℕ → List Arg) (n : ℕ) → total rests (suc n) (first_places files) ≡ 1
rests-first_places files zero =
    omega (arith, total-suc rests 0 (first_places files), total-zero rests (first_places files))
rests-first_places files (suc n) =
    ground (arith, total-suc rests (suc n) (first_places files), rests-first_places files n)

home-first_places : (files : ℕ → List Arg) (i : ℕ) → AtHome i (first_places files i)
home-first_places files zero = refl
home-first_places files (suc i) = ground arith

owes-first_places : (files : ℕ → List Arg) (i : ℕ) → owes i (first_places files i) ≡ 0
owes-first_places files i = ground arith

exited-first_places : (files : ℕ → List Arg) (i : ℕ) → has_exited i (first_places files i) ≡ 0
exited-first_places files i = ground arith

unsent-first_places :
    (files : ℕ → List Arg) (i : ℕ) → 0 < i → unsent (first_places files i) ≡ sendable (files i)
unsent-first_places files i own = let e : (i == 0) ≡ false = ground arith in rw e

begin-Inv : (n : ℕ) (files : ℕ → List Arg) → Inv (suc n) files (begin files)
unfolding text sent_by
begin-Inv n files = record {
  owner = omega (arith, rests-first_places files n, no_debt);
  alive =
      total-eq-zero has_exited (suc n) (first_places files) (λ i lt. exited-first_places files i);
  printed = rw no_debt refl;
  home = λ i lt. home-first_places files i;
  complete = λ i lt own. unsent-first_places files i own;
}
  where
    no_debt : total owes (suc n) (first_places files) ≡ 0
    no_debt = total-eq-zero owes (suc n) (first_places files) (λ i lt. owes-first_places files i)

done-cases : (p : Place) → (p ≡ done) ⊎ (p ≢ done)
done-cases done = inl refl
done-cases p = inr (λ e. cc)

module _ {semop : Semop} (law : IsSemop num_of_semaphors semop) (n : ℕ) (files : ℕ → List Arg)
    (s : State Shared Place) (r : Reach (method semop) (suc n) (begin files) s) where
  Reach-Inv : Inv (suc n) files s
  Reach-Inv =
      Reach-invariant (method semop) (Inv (suc n) files) (begin-Inv n files)
        (λ s i s' p lt inv e. method-Inv law (suc n) files s i s' p lt inv e) r

  -- In every state, with any number of clients: what is printed, and after it the line in the buffer
  -- that is still owed, is the text of what was stored in the buffer, in that order; and what client
  -- `i` has stored so far and what it has left are its files up to the first that cannot be opened, the first that cannot be closed being the last.
  pub delivered :
      (i : ℕ)
      → i < suc n
      → 0 < i
      → (s.shared.output
            ++ (if owed (suc n) files s == 0 then [] else c_string s.shared.main_buffer)
          ≡ text s.shared.sent)
        × (sent_by i s.shared.sent ++ unsent (s.place i) ≡ sendable (files i))
  delivered i lt own = (Reach-Inv.printed, Reach-Inv.complete i lt own)

  -- No two of the server and the clients have the buffer at the same time.
  pub one_owner :
      (i j : ℕ) → i < suc n → j < suc n → owns i (s.place i) ≡ 1 → owns j (s.place j) ≡ 1 → i ≡ j
  one_owner i j i_in j_in oi oj =
      let inv = Reach-Inv in
      at_most_one owns (suc n) s.place i j
        (omega (arith, inv.owner, total-add owes rests (suc n) s.place)) i_in j_in (omega arith)
        (omega arith)

  -- While some client has not ended, there is a process that can take a step.
  pub client_unfinished_progress :
      (c : ℕ)
      → c < suc n
      → 0 < c
      → s.place c ≢ done
      → (i : ℕ) × (i < suc n)
        × ((t : Shared × Place) × (method semop i s.shared (s.place i) ≡ some t))
  client_unfinished_progress c lt own unfinished =
      let inv = Reach-Inv in
      elim (dec_lt 0 (s.shared.sems channel)) [
        | yes free ↦
            free_moves law (suc n) files s inv (omega (arith, inv.owner)) c lt own unfinished
        | no taken ↦ busy_moves law (suc n) files s inv (omega arith) (omega arith)
      ]

  -- Where no process can take a step any more, all is printed: the output is the text of what was
  -- stored in the buffer, and client `i` has stored all of its files up to the first that cannot be
  -- opened, the first that cannot be closed being the last.
  pub all_delivered :
      ((j : ℕ) (t : Shared × Place) → j < suc n → method semop j s.shared (s.place j) ≢ some t)
      → (i : ℕ) → i < suc n
      → 0 < i
      → (s.shared.output ≡ text s.shared.sent) × (sent_by i s.shared.sent ≡ sendable (files i))
  all_delivered halted i lt own = (rw (settled, append-nil) at inv.printed, whole)
    where
      inv : Inv (suc n) files s
      inv = Reach-Inv

      settled : s.shared.sems memory + total owes (suc n) s.place ≡ 0
      settled = elim (dec_lt 0 (owed (suc n) files s)) [
        | yes debt ↦
            let (i, lt, (t, e)) =
              busy_moves law (suc n) files s inv (omega arith) (omega (arith, inv.owner)) in
            absurd (halted i t lt e)
        | no paid ↦ omega arith
      ]

      whole : sent_by i s.shared.sent ≡ sendable (files i)
      whole = elim (done-cases (s.place i)) [
        | inl ended ↦ rw (ended, append-nil) at (inv.complete i lt own)
        | inr unfinished ↦
            let (j, j_in, (t, e)) = client_unfinished_progress i lt own unfinished in
            absurd (halted j t j_in e)
      ]
