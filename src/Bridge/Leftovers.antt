-- ===== src/Bridge/Leftovers.antt =====
-- `main` of bridge.c as the first process runs it, and what it leaves in the system. The results of the
-- system calls, and the arguments as `atoi` reads them, are arguments.
use sem.Prelude.{
  ℕ, zero, suc, ◌+◌, ◌<◌, ◌≡◌, ◌≢◌, ◌↔◌, refl, arith, Bool, true, false, Option, none, some, List,
  [], ◌∷◌, if◌then◌else◌,
}
use sem.Prelude.Int.{ℤ, pos, pos_part}
use sem.Sems.{Semop}
use sem.Bridge.{Shared, init}
use sem.Bridge.Main.{num_of_children}

-- What outlives the processes until it is removed.
pub data Object : Type 0 where
  semaphores memory : Object

abbrev pub made : Object → List Object → List Object
made object left = object ∷ left

-- IPC_RMID
abbrev pub removed : Object → List Object → List Object
removed object [] = []
removed semaphores (semaphores ∷ left) = removed semaphores left
removed semaphores (memory ∷ left) = memory ∷ removed semaphores left
removed memory (semaphores ∷ left) = semaphores ∷ removed memory left
removed memory (memory ∷ left) = removed memory left

-- How the first process ends: `main` returns, `exit` is called, or an assertion fails.
pub data Finish : Type 0 where
  returns : ℤ → Finish
  exits : ℤ → Finish
  aborts : Finish

-- The end, with what is there then that the process has made and not removed.
pub record Ended : Type 0 where
  pub how : Finish
  pub left : List Object

abbrev pub ends : Finish → List Object → Option Ended
ends how left = some (record { how = how; left = left })

-- A call that succeeds, or fails with an `errno`.
abbrev pub Try : Type 0
Try = Option ℕ

-- A call with its effect; where it fails `main` returns the `errno`.
abbrev pub tries :
    Try → (List Object → List Object) → List Object → (List Object → Option Ended) → Option Ended
tries none effect left rest = rest (effect left)
tries (some errno) effect left rest = ends (returns (pos errno)) left

-- The same for a call of another kind, with the end where it fails.
abbrev pub checks : Bool → Finish → List Object → (List Object → Option Ended) → Option Ended
checks true how left rest = rest left
checks false how left rest = ends how left

-- Waiting for the children; `none` where one of them never ends.
abbrev pub waits_for : Bool → List Object → (List Object → Option Ended) → Option Ended
waits_for true left rest = rest left
waits_for false left rest = none

-- An `Init` that does not succeed has called `exit(0)`.
abbrev pub is_done : Option Shared → Bool
is_done none = false
is_done (some s) = true

-- A loop of forks, so many rounds from `i`; `ok i` says whether that of round `i` succeeds.
unfoldable pub forks_all : (ℕ → Bool) → ℕ → ℕ → Bool
forks_all ok zero i = true
forks_all ok (suc rounds) i = let rest = forks_all ok rounds (i + 1) in if ok i then rest else false

pub record Calls : Type 0 where
  pub semget : Try
  pub shmget : Try
  pub calloc_ok : Bool
  pub shmat : Try
  pub fork_ok : ℕ → Bool
  pub fork_errno : ℕ
  pub children_end : Bool
  pub semctl : Try
  pub shmctl : Try

unfoldable pub bridge_main : Semop → List ℤ → Calls → Option Ended
bridge_main semop args c = tries c.semget (made semaphores) [] λ left.
    tries c.shmget (made memory) left λ left. checks c.calloc_ok aborts left λ left.
      tries c.shmat (λ same. same) left
        λ left. checks (is_done (init semop (λ _. 0))) (exits (pos 0)) left λ left.
          checks (forks_all c.fork_ok (pos_part (num_of_children args)) 0)
            (returns (pos c.fork_errno)) left
            λ left. waits_for c.children_end left λ left.
              tries c.semctl (removed semaphores) left
                λ left. tries c.shmctl (removed memory) left λ left. ends (returns (pos 0)) left

-- A call that fails leaves an `errno` that is not 0.
abbrev pub IsErrno : Try → Type 0
IsErrno none = Unit
IsErrno (some errno) = 0 < errno

-- Nothing is left exactly where `main` returns 0.
abbrev IsClean : Ended → Type 0
IsClean e = (e.left ≡ []) ↔ (e.how ≡ returns (pos 0))

abbrev EndsClean : Option Ended → Type 0
EndsClean none = Unit
EndsClean (some e) = IsClean e

errno-IsClean :
    (errno : ℕ) (object : Object) (objects : List Object)
    → 0 < errno
    → IsClean (record { how = returns (pos errno); left = object ∷ objects })
errno-IsClean errno object objects some_errno = (λ e. cc, λ e. absurd (ground arith))

tries-EndsClean :
    (t : Try) (effect : List Object → List Object) (object : Object) (objects : List Object)
    (rest : List Object → Option Ended)
    → IsErrno t
    → EndsClean (rest (effect (object ∷ objects)))
    → EndsClean (tries t effect (object ∷ objects) rest)
tries-EndsClean none effect object objects rest known clean = clean
tries-EndsClean (some errno) effect object objects rest known clean =
    errno-IsClean errno object objects known

checks-EndsClean :
    (ok : Bool) (how : Finish) (object : Object) (objects : List Object)
    (rest : List Object → Option Ended)
    → how ≢ returns (pos 0)
    → EndsClean (rest (object ∷ objects))
    → EndsClean (checks ok how (object ∷ objects) rest)
checks-EndsClean true how object objects rest other clean = clean
checks-EndsClean false how object objects rest other clean = (λ e. cc, λ e. absurd (other e))

waits_for-EndsClean :
    (ok : Bool) (left : List Object) (rest : List Object → Option Ended)
    → EndsClean (rest left)
    → EndsClean (waits_for ok left rest)
waits_for-EndsClean true left rest clean = clean
waits_for-EndsClean false left rest clean = tt

EndsClean-some : (m : Option Ended) (e : Ended) → m ≡ some e → EndsClean m → IsClean e
EndsClean-some none e is clean = cc
EndsClean-some (some x) e is clean = let same : x ≡ e = ground arith in rw (← same) clean

-- Where the calls that fail leave an `errno` that is not 0: when the first process ends, once the semaphores
-- are made, it leaves nothing behind exactly if `main` returns 0. Where a failed assertion ends it, or
-- Init, which exits with 0 too, it leaves something.
pub bridge_main_clean :
    (semop : Semop) (args : List ℤ) (c : Calls) (e : Ended)
    → c.semget ≡ none
    → IsErrno c.shmget
    → IsErrno c.shmat
    → 0 < c.fork_errno
    → IsErrno c.semctl
    → IsErrno c.shmctl
    → bridge_main semop args c ≡ some e
    → (e.left ≡ []) ↔ (e.how ≡ returns (pos 0))
unfolding bridge_main
bridge_main_clean semop args c e made_sems shmget shmat fork semctl shmctl is =
    EndsClean-some (bridge_main semop args c) e is (
      rw made_sems (
        tries-EndsClean c.shmget (made memory) semaphores [] _ shmget (
          checks-EndsClean c.calloc_ok aborts memory (semaphores ∷ []) _ (λ e. cc)
            (tries-EndsClean c.shmat (λ same. same) memory (semaphores ∷ []) _ shmat
              (checks-EndsClean (is_done (init semop (λ _. 0))) (exits (pos 0)) memory
                (semaphores ∷ []) _ (λ e. cc)
                (checks-EndsClean (forks_all c.fork_ok (pos_part (num_of_children args)) 0)
                  (returns (pos c.fork_errno)) memory (semaphores ∷ []) _ (λ e. ground arith)
                  (waits_for-EndsClean c.children_end (memory ∷ semaphores ∷ []) _ (
                    tries-EndsClean c.semctl (removed semaphores) memory (semaphores ∷ []) _ semctl
                      (tries-EndsClean c.shmctl (removed memory) memory [] _ shmctl
                        (λ e. refl, λ e. refl))))))))))
