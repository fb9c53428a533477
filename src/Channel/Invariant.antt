-- ===== src/Channel/Invariant.antt =====
-- The invariant of the channel: one process at a time has the buffer, what is printed and what
-- still waits in the buffer make up what was sent, and what a client has sent and has still to send
-- make up its files.
pub mod Steps
pub mod Methods
use sem.Prelude.{
  ℕ, ◌+◌, ◌<◌, ◌≡◌, total, Option, none, some, List, [], ◌∷◌, ◌++◌, ◌==◌, if◌then◌else◌,
}
use sem.Process.{State}
use sem.Channel.{
  Chunk, Stream, Arg, Later, close_file, Shared, Place, open_channel, wait_memory, print_buffer,
  free_channel, wait_taken, next_file, take_channel, fill, give_memory, wait_printed, give_channel,
  exited, channel, memory, c_string,
}

-- Has the buffer with a line in it that is not yet printed.
abbrev pub owes : ℕ → Place → ℕ
owes i print_buffer = 1
owes i (give_memory file files) = 1
owes i _ = 0

-- Has the buffer, with nothing in it to print. So has the server before its first operation.
abbrev pub rests : ℕ → Place → ℕ
rests i open_channel = 1
rests i free_channel = 1
rests i (fill file files) = 1
rests i (give_channel files) = 1
rests i _ = 0

-- Has the buffer to itself.
abbrev pub owns : ℕ → Place → ℕ
owns i p = owes i p + rests i p

abbrev pub has_exited : ℕ → Place → ℕ
has_exited i exited = 1
has_exited i _ = 0

-- The server stands in the server's loop, a client in the client's.
abbrev pub AtHome : ℕ → Place → Type 0
AtHome i open_channel = i ≡ 0
AtHome i wait_memory = i ≡ 0
AtHome i print_buffer = i ≡ 0
AtHome i free_channel = i ≡ 0
AtHome i wait_taken = i ≡ 0
AtHome i exited = Unit
AtHome i _ = 0 < i

-- The text that is printed for what was sent.
unfoldable pub text : List (ℕ × Chunk) → List ℕ
text [] = []
text ((i, line) ∷ log) = c_string line ++ text log

-- What client `i` has sent.
unfoldable pub sent_by : ℕ → List (ℕ × Chunk) → List Chunk
sent_by i [] = []
sent_by i ((j, line) ∷ log) = if i == j then line ∷ sent_by i log else sent_by i log

-- What a client sends of its files: up to the first that cannot be opened, the first that cannot be closed being the last.
unfoldable pub sendable : List Arg → List Chunk
sendable [] = []
sendable (none ∷ args) = []
sendable (some (file, closes) ∷ args) = file ++ (if closes then sendable args else [])

abbrev pub sendable_later : Later → List Chunk
sendable_later later = if later.closes then sendable later.args else []

-- What a client has still to send.
abbrev pub unsent : Place → List Chunk
unsent (next_file args) = sendable args
unsent (take_channel file later) = file ++ sendable_later later
unsent (fill file later) = file ++ sendable_later later
unsent (give_memory file later) = file ++ sendable_later later
unsent (wait_printed file later) = file ++ sendable_later later
unsent (give_channel later) = sendable_later later
unsent (close_file later) = sendable_later later
unsent _ = []

module _ (n : ℕ) (files : ℕ → List Arg) (s : State Shared Place) where
  abbrev pub owed : ℕ
  owed = s.shared.sems memory + total owes n s.place

  pub record Inv : Type 0 where
    pub owner : s.shared.sems channel + owed + total rests n s.place ≡ 1
    pub alive : total has_exited n s.place ≡ 0
    pub printed :
        s.shared.output ++ (if owed == 0 then [] else c_string s.shared.main_buffer)
        ≡ text s.shared.sent
    pub home : (i : ℕ) → i < n → AtHome i (s.place i)
    pub complete :
        (i : ℕ) → i < n → 0 < i → sent_by i s.shared.sent ++ unsent (s.place i) ≡ sendable (files i)
