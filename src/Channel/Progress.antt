-- ===== src/Channel/Progress.antt =====
-- When the server and the clients can go on.
use sem.Prelude.{
  ℕ, ◌+◌, ◌<◌, ◌≤◌, ◌≡◌, ◌≢◌, refl, arith, ap, total, total-pos, le-total, none, some, List, [],
  ◌∷◌, ◌==◌, false, ==_iff, dec_lt,
}
use sem.Prelude.Int.{pos}
use sem.Process.{State}
use sem.Sems.{Semop, IsSemop, p_oper, v_oper, z_oper}
use sem.Sems.Laws.{p_oper_one, v_oper_one, z_oper_zero}
use sem.Channel.{
  Arg, close_file, Shared, Place, open_channel, wait_memory, print_buffer, free_channel, wait_taken,
  next_file, take_channel, fill, give_memory, wait_printed, give_channel, done, exited, server,
  client, method, channel, memory, num_of_semaphors, resume, Turn,
}
use sem.Channel.Invariant.{Inv, owes, rests, has_exited, AtHome}

module _ {semop : Semop} (law : IsSemop num_of_semaphors semop) (n : ℕ) (files : ℕ → List Arg)
    (s : State Shared Place) (inv : Inv n files s) where
  abbrev pub Result : Turn → Type 0
  Result m = (t : Shared × Place) × (m ≡ some t)

  abbrev pub Enabled : ℕ → Type 0
  Enabled i = Result (method semop i s.shared (s.place i))

  takes :
      (k : ℕ) (q : Place)
      → k < num_of_semaphors
      → 1 ≤ s.shared.sems k
      → Result (resume s.shared (p_oper semop s.shared.sems k (pos 1)) q)
  takes k q lt has = (_, ap (λ o. resume s.shared o q) (p_oper_one law s.shared.sems k lt has))

  gives :
      (k : ℕ) (q : Place)
      → k < num_of_semaphors
      → s.shared.sems k ≤ 1
      → Result (resume s.shared (v_oper semop s.shared.sems k (pos 1)) q)
  gives k q lt low =
      (_, ap (λ o. resume s.shared o q) (v_oper_one law s.shared.sems k lt (omega arith)))

  passes :
      (k : ℕ) (q : Place)
      → k < num_of_semaphors
      → s.shared.sems k ≡ 0
      → Result (resume s.shared (z_oper semop s.shared.sems k) q)
  passes k q lt free = (_, ap (λ o. resume s.shared o q) (z_oper_zero law s.shared.sems k lt free))

  as_server :
      (i : ℕ) (p : Place)
      → i ≡ 0
      → Result (server semop s.shared p)
      → Result (method semop i s.shared p)
  as_server i p zeroth m = rw ((==_iff i 0).1 zeroth) m

  as_client :
      (i : ℕ) (p : Place)
      → 0 < i
      → Result (client semop i s.shared p)
      → Result (method semop i s.shared p)
  as_client i p other m = let e : (i == 0) ≡ false = ground arith in rw e m

  -- Who has the buffer can go on: it waits for nothing.
  owner_moves :
      (i : ℕ) (p : Place)
      → AtHome i p
      → 0 < owes i p + rests i p
      → Result (method semop i s.shared p)
  unfolding server client
  owner_moves i open_channel home own =
      as_server i open_channel home (gives channel wait_memory (omega arith) (omega arith))
  owner_moves i print_buffer home own = as_server i print_buffer home (_, refl)
  owner_moves i free_channel home own =
      as_server i free_channel home (gives channel wait_taken (omega arith) (omega arith))
  owner_moves i (fill [] more) home own = as_client i (fill [] more) home (_, refl)
  owner_moves i (fill (line ∷ file) more) home own =
      as_client i (fill (line ∷ file) more) home (_, refl)
  owner_moves i (give_memory file more) home own =
      as_client i (give_memory file more) home
        (gives memory (wait_printed file more) (omega arith) (omega arith))
  owner_moves i (give_channel more) home own =
      as_client i (give_channel more) home
        (gives channel (close_file more) (omega arith) (omega arith))
  owner_moves i p home own = absurd (omega arith)

  -- The server takes what waits in the buffer.
  server_takes :
      (p : Place)
      → AtHome 0 p
      → p ≢ exited
      → s.shared.sems channel ≡ 0
      → s.shared.sems memory ≡ 1
      → owes 0 p + rests 0 p ≡ 0
      → Result (server semop s.shared p)
  unfolding server
  server_takes wait_memory home alive ch mem idle =
      takes memory print_buffer (omega arith) (omega arith)
  server_takes wait_taken home alive ch mem idle = passes channel wait_memory (omega arith) ch
  server_takes exited home alive ch mem idle = absurd (alive refl)
  server_takes p home alive ch mem idle = absurd (omega arith)

  -- A client that has not ended goes on while the buffer is free.
  client_goes :
      (i : ℕ) (p : Place)
      → 0 < i
      → AtHome i p
      → p ≢ exited
      → p ≢ done
      → s.shared.sems channel ≡ 1
      → s.shared.sems memory ≡ 0
      → owes i p + rests i p ≡ 0
      → Result (client semop i s.shared p)
  unfolding client
  client_goes i (next_file []) own home alive unfinished ch mem idle = (_, refl)
  client_goes i (next_file (none ∷ more)) own home alive unfinished ch mem idle = (_, refl)
  client_goes i (next_file (some (file, closes) ∷ more)) own home alive unfinished ch mem idle =
      (_, refl)
  client_goes i (take_channel file more) own home alive unfinished ch mem idle =
      takes channel (fill file more) (omega arith) (omega arith)
  client_goes i (wait_printed file more) own home alive unfinished ch mem idle =
      passes memory (take_channel file more) (omega arith) mem
  client_goes i (close_file more) own home alive unfinished ch mem idle = (_, refl)
  client_goes i exited own home alive unfinished ch mem idle = absurd (alive refl)
  client_goes i done own home alive unfinished ch mem idle = absurd (unfinished refl)
  client_goes i p own home alive unfinished ch mem idle = absurd (omega arith)

  exited_counts : (i : ℕ) (p : Place) → p ≡ exited → has_exited i p ≡ 1
  exited_counts i p e = rw e

  pub never_exits : (i : ℕ) → i < n → s.place i ≢ exited
  never_exits i lt e =
      absurd (
        omega (arith, le-total has_exited n s.place i lt, exited_counts i (s.place i) e, inv.alive))

  none_of : (w : ℕ → Place → ℕ) (i : ℕ) → i < n → total w n s.place ≡ 0 → w i (s.place i) ≡ 0
  none_of w i lt zero_sum = omega (arith, le-total w n s.place i lt)

  abbrev pub Someone : Type 0
  Someone = (i : ℕ) × (i < n) × Enabled i

  -- While the buffer has an owner or waits for the server, some process can go on.
  pub busy_moves : 0 < n → s.shared.sems channel ≡ 0 → Someone
  busy_moves some_process taken = elim (dec_lt 0 (total owes n s.place)) [
    | yes debt ↦
        let (i, lt, w) = total-pos owes n s.place debt in
        (i, lt, owner_moves i (s.place i) (inv.home i lt) (omega arith))
    | no paid ↦ elim (dec_lt 0 (total rests n s.place)) [
      | yes own ↦
          let (i, lt, w) = total-pos rests n s.place own in
          (i, lt, owner_moves i (s.place i) (inv.home i lt) (omega arith))
      | no idle ↦ (
        0,
        some_process,
        server_takes (s.place 0) (inv.home 0 some_process) (never_exits 0 some_process) taken
            (omega (arith, inv.owner))
            (omega (arith, none_of owes 0 some_process, none_of rests 0 some_process)),
      )
    ]
  ]

  pub free_moves : s.shared.sems channel ≡ 1 → (c : ℕ) → c < n → 0 < c → s.place c ≢ done → Someone
  free_moves free c lt own unfinished = (
    c,
    lt,
    as_client c (s.place c) own (
        client_goes c (s.place c) own (inv.home c lt) (never_exits c lt) unfinished free
          (omega (arith, inv.owner))
          (omega (arith, inv.owner, none_of owes c lt, none_of rests c lt))),
  )
