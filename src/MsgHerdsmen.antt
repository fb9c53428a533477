-- ===== src/MsgHerdsmen.antt =====
-- msg_task/herdsmans/msg.h and main.c: herdsmen who meet by messages. `Up_wait`, `Up_go`, `Down_go` and
-- `Cap` are globals that each child has of its own behind `fork`, so that they belong to the process.
-- The results of `msgsnd` and `msgrcv` are not looked at. What `msgrcv` writes to `msg` is
-- overwritten before it is sent.
pub mod Course
pub mod Passage
pub mod Meeting
mod Tests
use sem.Prelude.{ℕ, ◌+◌, Option, none, some, not, ◌==◌, if◌then◌else◌}
use sem.Prelude.Int.{ℤ, pos, ◌+ℤ◌, ◌-ℤ◌, is_pos, to_int}
use sem.Messages.{Queue, MsgCall, MsgResult, success, sleeps, failure}

-- The types of the messages, by the number of herdsmen.
abbrev pub hrdsman_dwn_let_go : ℕ → ℕ
hrdsman_dwn_let_go num_of_herdmans = num_of_herdmans + 4

abbrev pub hrdsman_dwn_wtng : ℕ → ℕ
hrdsman_dwn_wtng num_of_herdmans = num_of_herdmans + 3

abbrev pub hrdsman_in_bom_up : ℕ → ℕ
hrdsman_in_bom_up num_of_herdmans = num_of_herdmans + 2

abbrev pub hrdsman_in_queue : ℕ → ℕ
hrdsman_in_queue num_of_herdmans = num_of_herdmans + 1

-- sizeof(struct Message_t)
abbrev pub msg_size : ℕ
msg_size = 8

pub record Globals : Type 0 where
  pub up_wait : ℤ
  pub up_go : ℤ
  pub down_go : ℤ
  pub cap : ℤ

abbrev pub inc : ℤ → ℤ
inc z = to_int (z +ℤ pos 1)

abbrev pub dec : ℤ → ℤ
dec z = to_int (z -ℤ pos 1)

-- What a herdsman does next.
pub data Place : Type 0 where
  arrive : Place  -- Herdsman_at_the_bot: Up_wait++
  wait_queue : Place  -- msgrcv(HRDSMAN_IN_QUEUE)
  look_hat : Place  -- the test of Cap, Cap = 1, and the test of Down_go
  wait_free : Place  -- msgrcv(index), with HRDSMAN_DWN_WTNG as the size
  wait_let_go : Place  -- msgrcv(index), with HRDSMAN_DWN_LET_GO as the size
  leave_queue : Place  -- Up_wait--
  send_queue : Place  -- msgsnd(HRDSMAN_IN_QUEUE)
  enter : Place  -- Up_go++
  send_up : Place  -- msgsnd(HRDSMAN_IN_BOM_UP)
  go_up : Place  -- through the bom: Cap = 0, Up_go--
  send_gone : Place  -- Cap = 0, msgsnd with the type that `msg` has from `send_up`
  top : Place  -- Herdsman_at_the_top: the test of Cap
  wait_up : Place  -- msgrcv(HRDSMAN_IN_BOM_UP)
  block : Place  -- the test of Down_go
  send_waiting : Place  -- msgsnd(HRDSMAN_DWN_WTNG), with the same number as the size
  blocked : Place  -- Down_go++
  go_down : Place  -- through the bom: Down_go--
  send_let_go : Place  -- msgsnd(HRDSMAN_DWN_LET_GO), with the same number as the size
  went_away : Place  -- the end

-- A process: its globals and its place.
pub record Local : Type 0 where
  pub globals : Globals
  pub place : Place

abbrev pub Turn : Type 0
Turn = Option (Queue × Local)

abbrev pub go_on : Queue → Globals → Place → Turn
go_on q g p = some (q, record { globals = g; place = p })

-- Behind a message call, whether it has failed or not.
abbrev pub resume : Queue → MsgResult → Globals → Place → Turn
resume q (success r) g p = go_on r g p
resume q sleeps g p = none
resume q failure g p = go_on q g p

-- The calls take the size too.
module _ (msgsnd msgrcv : ℕ → MsgCall) (num_of_herdmans : ℕ) where
  unfoldable pub herdsman : ℕ → Queue → Globals → Place → Turn
  herdsman index q g arrive =
      let waiting : ℤ = inc g.up_wait in
      go_on q (record g { up_wait = waiting })
        (if not (is_pos 1 waiting) then wait_queue else look_hat)
  herdsman index q g wait_queue =
      resume q (msgrcv msg_size q (hrdsman_in_queue num_of_herdmans)) g look_hat
  herdsman index q g look_hat =
      if is_pos 0 g.cap
      then go_on q (record g { cap = pos 1 })
          (if not (is_pos 0 g.down_go) then wait_free else leave_queue)
      else go_on q g leave_queue
  herdsman index q g wait_free =
      resume q (msgrcv (hrdsman_dwn_wtng num_of_herdmans) q index) g wait_let_go
  herdsman index q g wait_let_go =
      resume q (msgrcv (hrdsman_dwn_let_go num_of_herdmans) q index) g leave_queue
  herdsman index q g leave_queue =
      let waiting : ℤ = dec g.up_wait in
      go_on q (record g { up_wait = waiting })
        (if not (is_pos 0 waiting) then send_queue else enter)
  herdsman index q g send_queue =
      resume q (msgsnd msg_size q (hrdsman_in_queue num_of_herdmans)) g enter
  herdsman index q g enter = go_on q (record g { up_go = inc g.up_go }) send_up
  herdsman index q g send_up =
      resume q (msgsnd msg_size q (hrdsman_in_bom_up num_of_herdmans)) g go_up
  herdsman index q g go_up =
      let going : ℤ = dec g.up_go in
      go_on q (record g { up_go = going; cap = pos 0 }) (if is_pos 0 going then send_gone else top)
  herdsman index q g send_gone =
      resume q (msgsnd msg_size q (hrdsman_in_bom_up num_of_herdmans)) (record g { cap = pos 0 })
        top
  herdsman index q g top = go_on q g (if not (is_pos 0 g.cap) then wait_up else block)
  herdsman index q g wait_up =
      resume q (msgrcv msg_size q (hrdsman_in_bom_up num_of_herdmans)) g block
  herdsman index q g block = go_on q g (if is_pos 0 g.down_go then send_waiting else go_down)
  herdsman index q g send_waiting =
      resume q (msgsnd (hrdsman_dwn_wtng num_of_herdmans) q (hrdsman_dwn_wtng num_of_herdmans)) g
        blocked
  herdsman index q g blocked = go_on q (record g { down_go = inc g.down_go }) go_down
  herdsman index q g go_down =
      let going : ℤ = dec g.down_go in
      go_on q (record g { down_go = going }) (if is_pos 0 going then send_let_go else went_away)
  herdsman index q g send_let_go =
      resume q (msgsnd (hrdsman_dwn_let_go num_of_herdmans) q (hrdsman_dwn_let_go num_of_herdmans))
        g went_away
  herdsman index q g went_away = none

  -- The children of `main`.
  abbrev pub method : ℕ → Queue → Local → Turn
  method i q l = herdsman (i + 1) q l.globals l.place

-- The globals as they are initialised.
abbrev pub new_globals : Globals
new_globals = record { up_wait = pos 0; up_go = pos 0; down_go = pos 0; cap = pos 0 }
