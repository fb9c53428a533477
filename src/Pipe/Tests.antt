-- ===== src/Pipe/Tests.antt =====
-- The counters on a short text.
use sem.Prelude.{ℕ, ◌≡◌, refl, arith, Bool, ◌||◌, ◌==◌, some, List, [], ◌∷◌, length}
use sem.Prelude.Int.{pos}
use sem.Pipe.{bytes, counter_func, count_buffer, counter_loop}
use sem.Pipe.Words.{lines, words}
use sem.Pipe.Count.{reads_of, text_of, counter_func_lem}

-- `isspace` in the C locale.
abbrev isspace : ℕ → Bool
isspace c = c == 32 || c == 9 || c == 10 || c == 11 || c == 12 || c == 13

-- "to b", "e\n": the word "be" lies in two pieces.
abbrev pieces : List (ℕ × List ℕ)
pieces = (b't', b'o' ∷ 32 ∷ b'b' ∷ []) ∷ (b'e', 10 ∷ []) ∷ []

to_be :
    counter_func isspace (reads_of pieces (bytes []))
    ≡ some (record { num_of_str = pos 1; num_of_word = pos 2; num_of_bytes = pos 6 })
unfolding counter_func counter_loop count_buffer reads_of
to_be = refl

counter_func_lem_example :
    counter_func isspace (reads_of pieces (bytes []))
    ≡ some (record {
      num_of_str = pos (lines (text_of pieces));
      num_of_word = pos (length (words isspace (text_of pieces)));
      num_of_bytes = pos (length (text_of pieces));
    })
unfolding text_of
counter_func_lem_example = counter_func_lem isspace pieces (omega arith)
