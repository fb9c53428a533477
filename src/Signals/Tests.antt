-- ===== src/Signals/Tests.antt =====
-- The exchange of signals for short files.
use sem.Prelude.{
  ℕ, ◌+◌, ◌*◌, ◌≡◌, ◌≢◌, ◌⊎◌, ◌≤◌, refl, arith, true, none, List, [], ◌∷◌, ◌++◌, length,
}
use sem.Process.{State, Reach, start, schedule, schedule-Reach, steps}
use sem.Signals.{
  ended, hangs, exchange, reader_method, writer_method, fetch, first_reader, first_writer,
}
use sem.Signals.Transfer.{content, joined, named}
use sem.Signals.Processes.{Shared, Place, returned, method, begin, reader_process, writer_process}
use sem.Signals.Processes.Ends.{reader, Over, processes_end}

abbrev hi : List ℕ
hi = b'h' ∷ 255 ∷ []

-- Behind an empty file stands one of a byte.
abbrev others : List (List ℕ)
others = [] ∷ (b'!' ∷ []) ∷ []

printed :
    exchange 25 (first_reader (content hi) 2 (named others)) first_writer
    ≡ ended (b'h' ∷ 255 ∷ b'!' ∷ [])
unfolding exchange reader_method writer_method fetch content
printed = refl

-- After a file that does not open, the two wait for each other.
missing_file :
    exchange 99 (first_reader (content hi) 1 (none ∷ [])) first_writer ≡ hangs (b'h' ∷ 255 ∷ [])
unfolding exchange reader_method writer_method fetch content
missing_file = refl

-- Nothing to print: five steps.
abbrev in_turn : List ℕ
in_turn = 0 ∷ 1 ∷ 0 ∷ 1 ∷ 0 ∷ []

nothing_sent : (schedule method 2 (begin (reader [] [])) in_turn).place 0 ≡ returned
unfolding schedule reader_process writer_process reader_method fetch content
nothing_sent = refl

-- The first bits of the first byte have been sent.
abbrev sending : State Shared Place
sending = schedule method 2 (begin (reader hi others)) (in_turn ++ in_turn)

sending-Reach : Reach method 2 (begin (reader hi others)) sending
sending-Reach = schedule-Reach method (begin (reader hi others)) (in_turn ++ in_turn) start

-- The child is first: its signal ends the reader.
too_early : (schedule method 2 (begin (reader hi others)) (1 ∷ 0 ∷ [])).shared.killed ≡ true
unfolding schedule reader_process writer_process
too_early = refl

processes_end_example :
    (steps method sending-Reach ≤ 16 * length (joined hi others) + 5)
    × ((reader_process sending.shared (sending.place 0) ≢ none)
        ⊎ ((writer_process sending.shared (sending.place 1) ≢ none)
            ⊎ Over hi others sending.shared (sending.place 0) (sending.place 1)))
processes_end_example = processes_end hi others (omega arith) sending-Reach
