-- ===== src/Signals/Processes/Phases.antt =====
-- Whose turn it is: no two signals are ever on their way, whatever the order of the steps.
use sem.Prelude.{ℕ, zero, suc, ◌+◌, ◌*◌, ◌≡◌, ap, ◌∙◌, subst, arith, Bool, true, false, none, some}
use sem.Process.{State, Reach, start, later, run, steps}
use sem.Signals.{
  Reader, Writer, Sent, bit, term, silent, reader_method, writer_method, first_writer, Exchange,
  exchange, ended, hangs, running, react,
}
use sem.Signals.Processes.{
  Shared, Place, forked, in_wait, returned, handlers_set, pausing, terminated, Turn, kill_writer,
  handled, reader_process, writer_process, method, quiet, begin,
}

-- The signals on their way, once the reader has its handler.
abbrev pub listening : Shared
listening = record quiet { installed = true }

abbrev pub asked : Shared
asked = record listening { to_reader = true }

-- The signal of a bit.
abbrev pub told : Bool → Shared
told b = kill_writer (bit b) listening

abbrev pub told_end : Shared
told_end = record listening { sigterm = true }

abbrev pub child_over : Shared
child_over = record told_end { child_gone = true }

module _ (reader : Reader) where
  -- The exchange goes on from here as it does from its begin, `k` rounds further.
  abbrev pub Goes : ℕ → (ℕ → Exchange) → Type 0
  Goes k from = (m : ℕ) → exchange (k + m) reader first_writer ≡ from m

  -- The exchange is not over after `k` rounds.
  abbrev pub RunsOn : ℕ → Type 0
  RunsOn k = exchange k reader first_writer ≡ running

  pub runs_on : (k : ℕ) (r : Reader) (w : Writer) → Goes k (λ m. exchange m r w) → RunsOn k
  unfolding exchange
  runs_on k r w go = ap (λ n. exchange n reader first_writer) (omega arith) ∙ go 0

  -- Where the two processes stand, after so many steps.
  pub data Phase : ℕ → Shared → Place → Place → Type 0 where
    fresh : Phase 0 quiet (forked reader) (handlers_set first_writer)
    ready : Phase 1 listening (in_wait reader) (handlers_set first_writer)
    dead : Phase 1 (record quiet { killed = true }) (forked reader) (pausing first_writer)
    readers_turn :
        {steps : ℕ} (k : ℕ) {r : Reader} {w : Writer}
        → steps ≡ 2 * k + 2
        → Goes k (λ m. exchange m r w)
        → Phase steps asked (in_wait r) (pausing w)
    writers_turn :
        {steps : ℕ} (k : ℕ) (b : Bool) {r : Reader} {w : Writer}
        → steps ≡ 2 * k + 1
        → Goes k (λ m. exchange m r (writer_method b w))
        → Phase steps (told b) (in_wait r) (pausing w)
    ending :
        {steps : ℕ} (k : ℕ) {r : Reader} {w : Writer}
        → steps ≡ 2 * k + 3
        → RunsOn k
        → Goes (suc k) (λ m. ended w.output)
        → Phase steps told_end (in_wait r) (pausing w)
    gone :
        {steps : ℕ} (k : ℕ) {r : Reader} {w : Writer}
        → steps ≡ 2 * k + 4
        → RunsOn k
        → Goes (suc k) (λ m. ended w.output)
        → Phase steps child_over (in_wait r) (terminated w)
    over :
        {steps : ℕ} (k : ℕ) {w : Writer}
        → steps ≡ 2 * k + 5
        → RunsOn k
        → Goes (suc k) (λ m. ended w.output)
        → Phase steps child_over returned (terminated w)
    stuck :
        {steps : ℕ} (k : ℕ) {r : Reader} {w : Writer}
        → steps ≡ 2 * k + 3
        → RunsOn k
        → Goes (suc k) (λ m. hangs w.output)
        → Phase steps listening (in_wait r) (pausing w)

  -- The phase behind a turn of the reader, and of the writer.
  abbrev ReaderNext : ℕ → Place → Turn → Type 0
  ReaderNext steps q none = Unit
  ReaderNext steps q (some (s, p)) = Phase steps s p q

  abbrev WriterNext : ℕ → Place → Turn → Type 0
  WriterNext steps p none = Unit
  WriterNext steps p (some (s, q)) = Phase steps s p q

  -- A round of the exchange, seen from the reader.
  one_round :
      (k : ℕ) (r : Reader) (w : Writer)
      → Goes k (λ m. exchange m r w)
      → Goes (suc k) (λ m. react (exchange m (reader_method r).0) (reader_method r).1 w)
  unfolding exchange
  one_round k r w go m = ap (λ n. exchange n reader first_writer) (omega arith) ∙ go (suc m)

  sent_on :
      (steps k : ℕ) (w : Writer) (turn : Reader × Sent)
      → steps ≡ 2 * k + 2
      → RunsOn k
      → Goes (suc k) (λ m. react (exchange m turn.0) turn.1 w)
      → ReaderNext (suc steps) (pausing w) (handled asked turn)
  sent_on steps k w (r, bit true) e on go = writers_turn (suc k) true (omega arith) go
  sent_on steps k w (r, bit false) e on go = writers_turn (suc k) false (omega arith) go
  sent_on steps k w (r, term) e on go = ending k (omega arith) on go
  sent_on steps k w (r, silent) e on go = stuck k (omega arith) on go

  reader_turn :
      {steps : ℕ} {s : Shared} {p q : Place}
      → Phase steps s p q
      → ReaderNext (suc steps) q (reader_process s p)
  unfolding reader_process
  reader_turn fresh = ready
  reader_turn ready = tt
  reader_turn dead = tt
  reader_turn {steps} (readers_turn k {r} {w} e go) =
      sent_on steps k w (reader_method r) e (runs_on k r w go) (one_round k r w go)
  reader_turn (writers_turn k true e go) = tt
  reader_turn (writers_turn k false e go) = tt
  reader_turn (ending k e on go) = tt
  reader_turn (gone k e on go) = over k (omega arith) on go
  reader_turn (over k e on go) = tt
  reader_turn (stuck k e on go) = tt

  writer_turn :
      {steps : ℕ} {s : Shared} {p q : Place}
      → Phase steps s p q
      → WriterNext (suc steps) p (writer_process s q)
  unfolding writer_process
  writer_turn fresh = dead
  writer_turn ready =
      readers_turn 0 (omega arith) (λ m. ap (λ n. exchange n reader first_writer) (omega arith))
  writer_turn dead = tt
  writer_turn (readers_turn k e go) = tt
  writer_turn (writers_turn k true e go) = readers_turn k (omega arith) go
  writer_turn (writers_turn k false e go) = readers_turn k (omega arith) go
  writer_turn (ending k e on go) = gone k (omega arith) on go
  writer_turn (gone k e on go) = tt
  writer_turn (over k e on go) = tt
  writer_turn (stuck k e on go) = tt

  -- Every state that can come about is in a phase.
  pub Reach-Phase :
      {s : State Shared Place} (r : Reach method 2 (begin reader) s)
      → Phase (steps method r) s.shared (s.place 0) (s.place 1)
  unfolding steps
  Reach-Phase start = fresh
  Reach-Phase (later {s} r (run zero {shared'} {p} lt e)) =
      subst (ReaderNext (suc (steps method r)) (s.place 1)) e (reader_turn (Reach-Phase r))
  Reach-Phase (later {s} r (run (suc zero) {shared'} {p} lt e)) =
      subst (WriterNext (suc (steps method r)) (s.place 0)) e (writer_turn (Reach-Phase r))
  Reach-Phase (later {s} r (run (suc (suc i)) {shared'} {p} lt e)) = absurd (omega arith)
