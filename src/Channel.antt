-- ===== src/Channel.antt =====
-- 8sem/server.c and 8sem/client.c: clients write lines into shared memory, and a server prints them.
-- Process 0 is the server, the others are clients. The files of a client are given by what the
-- calls of `fgets` return; `fclose` can fail.
pub mod Invariant
mod Tests
pub mod Progress
pub mod Delivery
use sem.Prelude.{ℕ, Bool, true, false, Option, none, some, List, [], ◌∷◌, ◌++◌, ◌==◌, if◌then◌else◌}
use sem.Prelude.Int.{pos}
use sem.Process.{State}
use sem.Sems.{Values, Semop, Outcome, next, waits, exits, p_oper, v_oper, z_oper}

-- The characters that one call of `fgets` stores before the terminating '\0'.
abbrev pub Chunk : Type 0
Chunk = List ℕ

-- What the calls of `fgets` on a file store, up to the one that returns NULL.
abbrev pub Stream : Type 0
Stream = List Chunk

-- `num_of_semaphors`, and `enum Semaphors`
abbrev pub num_of_semaphors : ℕ
num_of_semaphors = 2

abbrev pub channel : ℕ
channel = 0

abbrev pub memory : ℕ
memory = 1

-- What a client meets at an argument: `none` is an `open` or `fdopen` that fails, `(file, closes)` a file
-- with whether its `fclose` succeeds.
abbrev pub Arg : Type 0
Arg = Option (Stream × Bool)

-- What is left to a client behind the file that it writes: its `fclose`, and the later arguments.
pub record Later : Type 0 where
  pub closes : Bool
  pub args : List Arg

-- The semaphores, the shared buffer, and what the server has printed. `sent` keeps a record of what
-- was stored in the buffer, and by whom; no process reads it.
pub record Shared : Type 0 where
  pub sems : Values
  pub main_buffer : Chunk
  pub output : List ℕ
  pub sent : List (ℕ × Chunk)

-- What `printf("%s", …)` prints of a buffer: the characters before the first '\0'.
pub c_string : Chunk → List ℕ
c_string [] = []
c_string (c ∷ cs) = if c == 0 then [] else c ∷ c_string cs

-- What a process does next. A client keeps what is left of its file, and what follows it.
pub data Place : Type 0 where
  open_channel : Place  -- server: V(CHANNEL), before the loop
  wait_memory : Place  -- server: P(MEMORY)
  print_buffer : Place  -- server: `printf`
  free_channel : Place  -- server: V(CHANNEL)
  wait_taken : Place  -- server: Z(CHANNEL)
  next_file : List Arg → Place  -- client: the head of the loop of `Start_working`
  take_channel : Stream → Later → Place  -- client: P(CHANNEL)
  fill : Stream → Later → Place  -- client: `fgets`
  give_memory : Stream → Later → Place  -- client: V(MEMORY)
  wait_printed : Stream → Later → Place  -- client: Z(MEMORY)
  give_channel : Later → Place  -- client: V(CHANNEL), at the end of the file
  close_file : Later → Place  -- client: `fclose`
  done : Place  -- client: the end
  exited : Place  -- `exit(0)` in a semaphore operation

-- Behind `fclose`: where it fails, `Start_working` returns.
abbrev pub closed : Bool → List Arg → Place
closed true args = next_file args
closed false args = done

-- The shared state after a step, and where the process stands; `none` while it waits.
abbrev pub Turn : Type 0
Turn = Option (Shared × Place)

abbrev pub resume : Shared → Outcome → Place → Turn
resume s (next v) p = some (record s { sems = v }, p)
resume s waits p = none
resume s exits p = some (s, exited)

module _ (semop : Semop) where
  -- `Start_working` of server.c.
  unfoldable pub server : Shared → Place → Turn
  server s open_channel = resume s (v_oper semop s.sems channel (pos 1)) wait_memory
  server s wait_memory = resume s (p_oper semop s.sems memory (pos 1)) print_buffer
  server s print_buffer =
      some (record s { output = s.output ++ c_string s.main_buffer }, free_channel)
  server s free_channel = resume s (v_oper semop s.sems channel (pos 1)) wait_taken
  server s wait_taken = resume s (z_oper semop s.sems channel) wait_memory
  server s p = none

  -- `Start_working` and `My_write` of client.c, run by process `i`.
  unfoldable pub client : ℕ → Shared → Place → Turn
  client i s (next_file []) = some (s, done)
  client i s (next_file (none ∷ args)) = some (s, done)
  client i s (next_file (some (file, closes) ∷ args)) =
      some (s, take_channel file (record { closes = closes; args = args }))
  client i s (take_channel file later) =
      resume s (p_oper semop s.sems channel (pos 1)) (fill file later)
  client i s (fill [] later) = some (s, give_channel later)
  client i s (fill (line ∷ file) later) =
      some
        (record s { main_buffer = line; sent = s.sent ++ ((i, line) ∷ []) }, give_memory file later)
  client i s (give_memory file later) =
      resume s (v_oper semop s.sems memory (pos 1)) (wait_printed file later)
  client i s (wait_printed file later) =
      resume s (z_oper semop s.sems memory) (take_channel file later)
  client i s (give_channel later) =
      resume s (v_oper semop s.sems channel (pos 1)) (close_file later)
  client i s (close_file later) = some (s, closed later.closes later.args)
  client i s p = none

  abbrev pub method : ℕ → Shared → Place → Turn
  method i s p = if i == 0 then server s p else client i s p

-- Nothing is written yet, and the semaphores are new. Client `i` has the arguments `args i`.
abbrev pub begin : (ℕ → List Arg) → State Shared Place
begin args = record {
  shared = record { sems = λ _. 0; main_buffer = []; output = []; sent = [] };
  place = λ i. if i == 0 then open_channel else next_file (args i);
}
