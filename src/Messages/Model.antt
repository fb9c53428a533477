-- ===== src/Messages/Model.antt =====
-- A message queue that does what the manual says: it shows that the hypotheses on `msgsnd` and
-- `msgrcv` can be met, and the examples run on it.
use sem.Prelude.{ℕ, refl, arith, [], ◌∷◌, ◌++◌, length, ltb, ◌==◌, if◌then◌else◌}
use sem.Messages.{MsgCall, success, sleeps, failure, take_first, received, IsMsgQueue}

unfoldable pub kernel_msgsnd : ℕ → MsgCall
kernel_msgsnd room q t =
    if t == 0 then failure else if ltb (length q) room then success (q ++ (t ∷ [])) else sleeps

unfoldable pub kernel_msgrcv : MsgCall
kernel_msgrcv q t = received (take_first t q)

pub kernel-IsMsgQueue : (room : ℕ) → IsMsgQueue room (kernel_msgsnd room) kernel_msgrcv
unfolding kernel_msgsnd kernel_msgrcv
kernel-IsMsgQueue room = record {
  sends = λ q t some_type fits. ground arith;
  full_sleeps = λ q t some_type full. ground arith;
  send_einval = λ q. refl;
  receives = λ q t some_type. refl;
}
