-- ===== src/Signals/Processes.antt =====
-- The two processes of semA/unreliable_sig.c, which run at the same time: process 0 is the reader and
-- process 1, its child, the writer. A signal that comes while the same signal is pending is lost, and a
-- signal without a handler ends the process.
pub mod Phases
pub mod Ends
use sem.Prelude.{ℕ, Bool, true, false, Option, none, some, List, ◌==◌, if◌then◌else◌}
use sem.Process.{State}
use sem.Signals.{
  Content, Reader, Writer, Sent, bit, term, silent, reader_method, writer_method, first_reader,
  first_writer,
}

-- The signals that are pending, whether the reader has its handler, and whether the reader has been
-- killed and the child has ended.
pub record Shared : Type 0 where
  pub to_reader : Bool  -- SIGUSR1
  pub usr1 : Bool  -- SIGUSR1 to the writer
  pub usr2 : Bool
  pub sigterm : Bool
  pub installed : Bool
  pub killed : Bool
  pub child_gone : Bool

-- What a process does next, with its variables.
pub data Place : Type 0 where
  forked : Reader → Place  -- reader: signal(SIGUSR1, Reader_method)
  in_wait : Reader → Place  -- reader: wait(NULL), where the handler runs
  returned : Place  -- reader: the end of main
  handlers_set : Writer → Place  -- writer: kill(reader_pid, SIGUSR1)
  pausing : Writer → Place  -- writer: pause(), where the handler runs
  terminated : Writer → Place  -- writer: ended by SIGTERM

abbrev pub Turn : Type 0
Turn = Option (Shared × Place)

-- kill(reader_pid, SIGUSR1)
abbrev pub kill_reader : Shared → Shared
kill_reader s = if s.installed then record s { to_reader = true } else record s { killed = true }

-- What Reader_method sends.
abbrev pub kill_writer : Sent → Shared → Shared
kill_writer (bit true) s = record s { usr2 = true }
kill_writer (bit false) s = record s { usr1 = true }
kill_writer term s = record s { sigterm = true }
kill_writer silent s = s

-- Reader_method, where SIGUSR1 has come.
abbrev pub handled : Shared → Reader × Sent → Turn
handled s (r, sent) = some (kill_writer sent (record s { to_reader = false }), in_wait r)

unfoldable pub reader_process : Shared → Place → Turn
reader_process s (forked r) =
    if s.killed then none else some (record s { installed = true }, in_wait r)
reader_process s (in_wait r) =
    if s.killed
    then none
    else if s.to_reader
    then handled s (reader_method r)
    else if s.child_gone
    then some (s, returned)
    else none
reader_process s p = none

-- Writer_method ends with kill(reader_pid, SIGUSR1).
unfoldable pub writer_process : Shared → Place → Turn
writer_process s (handlers_set w) = some (kill_reader s, pausing w)
writer_process s (pausing w) =
    if s.sigterm
    then some (record s { child_gone = true }, terminated w)
    else if s.usr1
    then some (kill_reader (record s { usr1 = false }), pausing (writer_method false w))
    else if s.usr2
    then some (kill_reader (record s { usr2 = false }), pausing (writer_method true w))
    else none
writer_process s p = none

abbrev pub method : ℕ → Shared → Place → Turn
method i s p = if i == 0 then reader_process s p else writer_process s p

-- Behind `fork`, with the first file open.
abbrev pub quiet : Shared
quiet = record {
  to_reader = false;
  usr1 = false;
  usr2 = false;
  sigterm = false;
  installed = false;
  killed = false;
  child_gone = false;
}

abbrev pub begin : Reader → State Shared Place
begin r = record {
  shared = quiet;
  place = λ i. if i == 0 then forked r else handlers_set first_writer;
}
