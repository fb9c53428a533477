-- ===== src/Messages.antt =====
-- The message queue of 6sem/runners_proc.c and msg_task/herdsmans/msg.h: a message is its type alone.
-- The system calls `msgsnd` and `msgrcv` are parameters.
pub mod Laws
pub mod Model
use sem.Prelude.{
  ℕ, ◌<◌, ◌≤◌, ◌≡◌, ◌+◌, Option, none, some, List, [], ◌∷◌, ◌++◌, length, ◌==◌, if◌then◌else◌,
}

-- The types of the messages in a queue, the oldest first.
abbrev pub Queue : Type 0
Queue = List ℕ

-- What a call with no flags does: it returns with the new queue, it puts the caller to sleep, or it
-- returns -1.
pub data MsgResult : Type 0 where
  success : Queue → MsgResult
  sleeps : MsgResult
  failure : MsgResult

-- msgsnd(id, msg, size, 0) with this type in `msg`, and msgrcv(id, msg, size, type, 0).
abbrev pub MsgCall : Type 0
MsgCall = Queue → ℕ → MsgResult

-- The queue without its first message of a type.
abbrev pub keep_first : ℕ → Option Queue → Option Queue
keep_first m none = none
keep_first m (some q) = some (m ∷ q)

unfoldable pub take_first : ℕ → Queue → Option Queue
take_first t [] = none
take_first t (m ∷ q) = let later = keep_first m (take_first t q) in if m == t then some q else later

abbrev pub received : Option Queue → MsgResult
received none = sleeps
received (some q) = success q

-- What the manual page msgop(2) says of a queue with room for `room` messages.
pub record IsMsgQueue (room : ℕ) (msgsnd msgrcv : MsgCall) : Type 0 where
  pub sends : (q : Queue) (t : ℕ) → 1 ≤ t → length q < room → msgsnd q t ≡ success (q ++ (t ∷ []))
  pub full_sleeps : (q : Queue) (t : ℕ) → 1 ≤ t → room ≤ length q → msgsnd q t ≡ sleeps
  pub send_einval : (q : Queue) → msgsnd q 0 ≡ failure
  pub receives : (q : Queue) (t : ℕ) → 1 ≤ t → msgrcv q t ≡ received (take_first t q)

-- How often a type stands in a queue.
unfoldable pub count : ℕ → Queue → ℕ
count t [] = 0
count t (m ∷ q) = (if m == t then 1 else 0) + count t q
