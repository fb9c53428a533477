-- ===== src/Signals.antt =====
-- semA/unreliable_sig.c: a process sends the bytes of its input files to its child, bit by bit, as
-- the signals SIGUSR1 and SIGUSR2. Each waits for the other's signal, so that no two are pending.
pub mod Transfer
pub mod Processes
mod Tests
use sem.Prelude.{
  ℕ, zero, suc, ◌+◌, ◌-◌, ◌*◌, ◌/◌, ◌%◌, ◌^◌, Bool, Option, none, some, List, [], ◌∷◌, ◌++◌, ◌==◌,
  if◌then◌else◌,
}

-- What an open file gives to `read(fd, &c, 1)`, one call after another.
pub data Content : Type 0 where
  end : Content  -- 0
  broken : Content  -- -1
  byte : ℕ → Content → Content  -- 1, with the byte stored

-- The variables of the reader: its statics `c` and `i`, and `fd`, `f_n` and `f_names`. A file that
-- `open` refuses is `none`.
pub record Reader : Type 0 where
  pub c : ℕ
  pub i : ℕ
  pub fd : Content
  pub f_n : ℕ
  pub f_names : List (Option Content)

-- The statics of the writer, `var` as the byte that it stands for, and what it has printed.
pub record Writer : Type 0 where
  pub var : ℕ
  pub index : ℕ
  pub output : List ℕ

-- What `Reader_method` sends to the writer: SIGUSR2 (`true`) or SIGUSR1 (`false`), SIGTERM, or
-- nothing after an error.
pub data Sent : Type 0 where
  bit : Bool → Sent
  term : Sent
  silent : Sent

-- How the loop around `read` ends.
pub data Fetched : Type 0 where
  got : ℕ → Content → ℕ → List (Option Content) → Fetched
  finished : Fetched
  failed : Fetched

-- The loop around `read`, which goes on to the next file at the end of one. Behind the last of
-- `f_names` stands the null pointer of `argv`, which `open` refuses.
unfoldable pub fetch : Content → ℕ → List (Option Content) → Fetched
fetch (byte b fd) f_n f_names = got b fd f_n f_names
fetch broken f_n f_names = failed
fetch end zero f_names = finished
fetch end (suc f_n) [] = failed
fetch end (suc f_n) (none ∷ f_names) = failed
fetch end (suc f_n) (some fd ∷ f_names) = fetch fd f_n f_names

-- `++i`, the signal for the lowest bit, and the shift.
abbrev pub send_bit : Reader → Reader × Sent
send_bit r = (record r { i = r.i + 1; c = r.c / 2 }, bit (r.c % 2 == 1))

-- After the loop around `read`, which stores a byte as the lowest of the `int` c.
abbrev pub after_fetch : Reader → Fetched → Reader × Sent
after_fetch r (got b fd f_n f_names) =
    send_bit (record r { c = r.c / 2 ^ 8 * 2 ^ 8 + b; fd = fd; f_n = f_n; f_names = f_names })
after_fetch r finished = (r, term)
after_fetch r failed = (r, silent)

-- `Reader_method`.
unfoldable pub reader_method : Reader → Reader × Sent
reader_method r =
    let masked = record r { i = r.i % 8 } in
    if masked.i == 0 then after_fetch masked (fetch r.fd r.f_n r.f_names) else send_bit masked

-- The end of `Writer_method`: the eighth bit completes a byte.
abbrev pub put : Writer → Writer
put w = if w.index == 0 then record w { var = 0; output = w.output ++ (w.var ∷ []) } else w

-- `Writer_method`, called with SIGUSR2 or with SIGUSR1.
unfoldable pub writer_method : Bool → Writer → Writer
writer_method usr2 w = put (record w {
  var = (w.var + (if usr2 then 1 else 0) * 2 ^ w.index) % 2 ^ 8;
  index = (w.index + 1) % 8;
})

-- How the exchange of signals goes on: the writer is ended by SIGTERM, the two wait for each other
-- for ever, or the rounds are used up.
pub data Exchange : Type 0 where
  ended : List ℕ → Exchange
  hangs : List ℕ → Exchange
  running : Exchange

-- What the writer makes of what the reader sends, with what follows its own signal.
abbrev pub react : (Writer → Exchange) → Sent → Writer → Exchange
react next (bit usr2) w = next (writer_method usr2 w)
react next term w = ended w.output
react next silent w = hangs w.output

-- The exchange: in each round the reader's handler runs, and then the writer's.
unfoldable pub exchange : ℕ → Reader → Writer → Exchange
exchange zero r w = running
exchange (suc rounds) r w = let (r', sent) = reader_method r in react (exchange rounds r') sent w

-- `main`: the first file is open, `f_n` others are named.
abbrev pub first_reader : Content → ℕ → List (Option Content) → Reader
first_reader fd f_n f_names = record { c = 0; i = 0; fd = fd; f_n = f_n; f_names = f_names }

abbrev pub first_writer : Writer
first_writer = record { var = 0; index = 0; output = [] }
