-- ===== src/MsgHerdsmen/Course.antt =====
-- The way of a herdsman of msg.h, which is the same whatever the others do.
use sem.Prelude.{
  ℕ, ◌+◌, ◌≤◌, ◌<◌, ◌≡◌, refl, arith, Bool, true, false, Option, none, some, [], ◌∷◌, ◌++◌, length,
  length-append,
}
use sem.Prelude.Int.{pos, to_int, ◌+ℤ◌, ◌-ℤ◌}
use sem.Messages.{Queue, MsgCall, success}
use sem.MsgHerdsmen.{
  Place, arrive, wait_queue, look_hat, wait_free, wait_let_go, leave_queue, send_queue, enter,
  send_up, go_up, send_gone, top, wait_up, block, send_waiting, blocked, go_down, send_let_go,
  went_away, Globals, Local, herdsman, new_globals, Turn, hrdsman_in_bom_up, hrdsman_dwn_wtng,
  hrdsman_dwn_let_go, msg_size,
}

-- What the manual page msgop(2) says of a queue while it has room for the message: a message that is
-- no larger than `largest` and of a positive type is sent.
pub record HasRoom (room largest : ℕ) (msgsnd : ℕ → MsgCall) : Type 0 where
  pub sends :
      (size t : ℕ) (q : Queue)
      → size ≤ largest
      → 1 ≤ t
      → length q < room
      → msgsnd size q t ≡ success (q ++ (t ∷ []))

-- The places that he comes to.
abbrev pub on_course : Place → Bool
on_course wait_queue = false
on_course wait_free = false
on_course wait_let_go = false
on_course send_queue = false
on_course wait_up = false
on_course p = true

-- His globals there.
abbrev pub globals_at : Place → Globals
globals_at look_hat = record new_globals { up_wait = pos 1 }
globals_at leave_queue = record new_globals { up_wait = pos 1; cap = pos 1 }
globals_at enter = record new_globals { cap = pos 1 }
globals_at send_up = record new_globals { up_go = pos 1; cap = pos 1 }
globals_at go_up = record new_globals { up_go = pos 1; cap = pos 1 }
globals_at go_down = record new_globals { down_go = pos 1 }
globals_at p = new_globals

abbrev pub local : Place → Local
local p = record { globals = globals_at p; place = p }

abbrev pub following : Place → Place
following arrive = look_hat
following look_hat = leave_queue
following leave_queue = enter
following enter = send_up
following send_up = go_up
following go_up = send_gone
following send_gone = top
following top = block
following block = send_waiting
following send_waiting = blocked
following blocked = go_down
following go_down = send_let_go
following p = went_away

-- The message that he sends from a place.
abbrev pub message : ℕ → Place → Option ℕ
message n send_up = some (hrdsman_in_bom_up n)
message n send_gone = some (hrdsman_in_bom_up n)
message n send_waiting = some (hrdsman_dwn_wtng n)
message n send_let_go = some (hrdsman_dwn_let_go n)
message n p = none

abbrev pub put : Queue → Option ℕ → Queue
put q none = q
put q (some t) = q ++ (t ∷ [])

-- The messages that he has still to send.
abbrev pub to_send : Place → ℕ
to_send go_up = 3
to_send send_gone = 3
to_send top = 2
to_send block = 2
to_send send_waiting = 2
to_send blocked = 1
to_send go_down = 1
to_send send_let_go = 1
to_send went_away = 0
to_send p = 4

longer : (q : Queue) (t a b : ℕ) → a + 1 ≡ b → length (q ++ (t ∷ [])) + a ≡ length q + b
longer q t a b e = omega (arith, length-append q (t ∷ []))

-- One step on the course.
pub record Goes (n : ℕ) (q : Queue) (p : Place) (turn : Turn) : Type 0 where
  pub on : on_course (following p) ≡ true
  pub turn_is : turn ≡ some (put q (message n p), local (following p))
  pub sums : length (put q (message n p)) + to_send (following p) ≡ length q + to_send p

module _ {room largest : ℕ} {msgsnd : ℕ → MsgCall} (law : HasRoom room largest msgsnd)
    (msgrcv : ℕ → MsgCall) (n index : ℕ) (short : n + 8 ≤ largest) (q : Queue)
    (roomy : length q < room) where
  pub advance :
      (p : Place)
      → on_course p ≡ true
      → 1 ≤ to_send p
      → Goes n q p (herdsman msgsnd msgrcv n index q (globals_at p) p)
  unfolding herdsman to_int ◌+ℤ◌ ◌-ℤ◌
  advance send_up on more = record {
    on = refl;
    turn_is =
        rw (law.sends msg_size (hrdsman_in_bom_up n) q (omega arith) (omega arith) roomy) refl;
    sums = longer q (hrdsman_in_bom_up n) _ _ refl;
  }
  advance send_gone on more = record {
    on = refl;
    turn_is =
        rw (law.sends msg_size (hrdsman_in_bom_up n) q (omega arith) (omega arith) roomy) refl;
    sums = longer q (hrdsman_in_bom_up n) _ _ refl;
  }
  advance send_waiting on more = record {
    on = refl;
    turn_is =
        rw (law.sends (hrdsman_dwn_wtng n) (hrdsman_dwn_wtng n) q (omega arith) (omega arith) roomy)
          refl;
    sums = longer q (hrdsman_dwn_wtng n) _ _ refl;
  }
  advance send_let_go on more = record {
    on = refl;
    turn_is =
        rw
          (law.sends (hrdsman_dwn_let_go n) (hrdsman_dwn_let_go n) q (omega arith) (omega arith)
            roomy)
          refl;
    sums = longer q (hrdsman_dwn_let_go n) _ _ refl;
  }
  advance wait_queue on more = cc
  advance wait_free on more = cc
  advance wait_let_go on more = cc
  advance send_queue on more = cc
  advance wait_up on more = cc
  advance went_away on more = absurd (omega arith)
  advance p on more = record { on = refl; turn_is = refl; sums = omega arith }
