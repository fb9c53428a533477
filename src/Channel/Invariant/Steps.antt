-- ===== src/Channel/Invariant/Steps.antt =====
-- A step of process `i` keeps the invariant of the channel.
use mathlib.Core.List.{append_assoc, append-nil}
use sem.Prelude.{
  ℕ, ◌+◌, ◌<◌, ◌≡◌, refl, arith, total, total-update, update, update_all, List, [], ◌∷◌, ◌++◌, ◌==◌,
  ==_iff, false, if◌then◌else◌,
}
use sem.Process.{State}
use sem.Channel.{
  Chunk, Stream, Arg, Later, Shared, Place, print_buffer, free_channel, fill, give_memory, channel,
  memory, c_string,
}
use sem.Channel.Invariant.{
  Inv, owes, rests, has_exited, AtHome, text, sent_by, sendable, unsent, owed,
}

text-append :
    (log : List (ℕ × Chunk)) (i : ℕ) (line : Chunk)
    → text (log ++ ((i, line) ∷ [])) ≡ text log ++ c_string line
unfolding text
text-append [] i line = rw append-nil
text-append ((j, other) ∷ log) i line = rw (text-append log i line, append_assoc)

sent_by-append :
    (k : ℕ) (log : List (ℕ × Chunk)) (i : ℕ) (line : Chunk)
    → sent_by k (log ++ ((i, line) ∷ []))
      ≡ (if k == i then sent_by k log ++ (line ∷ []) else sent_by k log)
unfolding sent_by
sent_by-append k [] i line = ground arith
sent_by-append k ((j, other) ∷ log) i line = ground (arith, sent_by-append k log i line)

other_index : (i j : ℕ) → (i == j) ≡ false → (j == i) ≡ false
other_index i j h = ground arith

module _ (n : ℕ) (files : ℕ → List Arg) (s : State Shared Place) (i : ℕ) (s' : Shared) (p' : Place)
    (lt : i < n) (inv : Inv n files s) where
  abbrev pub after : State Shared Place
  after = record { shared = s'; place = update s.place i p' }

  -- A step that leaves the buffer, the output and the record alone.
  pub quiet-Inv :
      (p : Place)
      → s.place i ≡ p
      → (s'.main_buffer ≡ s.shared.main_buffer)
        × (s'.output ≡ s.shared.output)
        × (s'.sent ≡ s.shared.sent)
      → (s'.sems channel + rests i p' ≡ s.shared.sems channel + rests i p)
        × (s'.sems memory + owes i p' ≡ s.shared.sems memory + owes i p)
        × (has_exited i p' ≡ 0)
      → AtHome i p'
      → unsent p' ≡ unsent p
      → Inv n files after
  quiet-Inv p at (buf, out, log) (ch, mem, ok) home same = record {
    owner = omega (arith, owing, resting);
    alive = omega (arith, total-update has_exited n s.place i p' lt);
    printed = rw (buf, out, log, debt) inv.printed;
    home = update_all AtHome n s.place i p' home (λ j j_in _. inv.home j j_in);
    complete =
        update_all (λ j q. 0 < j → sent_by j s'.sent ++ unsent q ≡ sendable (files j)) n s.place i
          p' (λ client. rw (log, same, ← at) (inv.complete i lt client))
          (λ j j_in _ client. rw log (inv.complete j j_in client));
  }
    where
      owing : total owes n (update s.place i p') + owes i p ≡ total owes n s.place + owes i p'
      owing = rw at at (total-update owes n s.place i p' lt)

      resting : total rests n (update s.place i p') + rests i p ≡ total rests n s.place + rests i p'
      resting = rw at at (total-update rests n s.place i p' lt)

      debt : owed n files after ≡ owed n files s
      debt = omega (arith, owing)

module _ (n : ℕ) (files : ℕ → List Arg) (s : State Shared Place) (i : ℕ) (lt : i < n)
    (inv : Inv n files s) where
  moved_sum :
      (w : ℕ → Place → ℕ) (p q : Place)
      → s.place i ≡ p
      → total w n (update s.place i q) + w i p ≡ total w n s.place + w i q
  moved_sum w p q at = rw at at (total-update w n s.place i q lt)

  -- The server prints the buffer.
  pub print-Inv :
      s.place i ≡ print_buffer
      → i ≡ 0
      → Inv n files (record {
        shared = record (s.shared) { output = s.shared.output ++ c_string s.shared.main_buffer };
        place = update s.place i free_channel;
      })
  print-Inv at zeroth = record {
    owner = omega (arith, owing, resting);
    alive = omega (arith, moved_sum has_exited print_buffer free_channel at);
    printed = rw (settled, append-nil) (rw in_debt at inv.printed);
    home = update_all AtHome n s.place i free_channel zeroth (λ j j_in _. inv.home j j_in);
    complete =
        update_all (λ j q. 0 < j → sent_by j s.shared.sent ++ unsent q ≡ sendable (files j)) n
          s.place i free_channel (λ client. absurd (omega arith))
          (λ j j_in _ client. inv.complete j j_in client);
  }
    where
      owing : total owes n (update s.place i free_channel) + 1 ≡ total owes n s.place + 0
      owing = moved_sum owes print_buffer free_channel at

      resting : total rests n (update s.place i free_channel) + 0 ≡ total rests n s.place + 1
      resting = moved_sum rests print_buffer free_channel at

      in_debt : s.shared.sems memory + total owes n s.place ≡ 1
      in_debt = omega (arith, owing)

      settled : s.shared.sems memory + total owes n (update s.place i free_channel) ≡ 0
      settled = omega (arith, owing)

  -- A client stores a line.
  pub fill-Inv :
      (line : Chunk) (file : Stream) (later : Later)
      → s.place i ≡ fill (line ∷ file) later
      → 0 < i
      → Inv n files (record {
        shared = record (s.shared) { main_buffer = line; sent = s.shared.sent ++ ((i, line) ∷ []) };
        place = update s.place i (give_memory file later);
      })
  fill-Inv line file later at mine = record {
    owner = omega (arith, owing, resting);
    alive =
        omega (arith, moved_sum has_exited (fill (line ∷ file) later) (give_memory file later) at);
    printed = rw (in_debt, text-append, ← inv.printed, settled) (rw append-nil refl);
    home =
        update_all AtHome n s.place i (give_memory file later) mine (λ j j_in _. inv.home j j_in);
    complete =
        update_all
          (λ j q.
            0 < j → sent_by j (s.shared.sent ++ ((i, line) ∷ [])) ++ unsent q ≡ sendable (files j))
          n s.place i (give_memory file later)
          (λ _.
            rw (sent_by-append i s.shared.sent i line, (==_iff i i).1 refl, append_assoc)
              (rw at at (inv.complete i lt mine)))
          (λ j j_in apart other.
            rw (sent_by-append j s.shared.sent i line, other_index i j apart)
              (inv.complete j j_in other));
  }
    where
      owing :
          total owes n (update s.place i (give_memory file later)) + 0 ≡ total owes n s.place + 1
      owing = moved_sum owes (fill (line ∷ file) later) (give_memory file later) at

      resting :
          total rests n (update s.place i (give_memory file later)) + 1 ≡ total rests n s.place + 0
      resting = moved_sum rests (fill (line ∷ file) later) (give_memory file later) at

      in_debt : s.shared.sems memory + total owes n (update s.place i (give_memory file later)) ≡ 1
      in_debt = omega (arith, owing, resting)

      settled : s.shared.sems memory + total owes n s.place ≡ 0
      settled = omega (arith, owing, resting)
