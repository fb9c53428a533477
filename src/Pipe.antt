-- ===== src/Pipe.antt =====
-- 5sem/my_pipe.c: the counter of bytes, words and lines behind `my_pipe -w`, which reads what another
-- program writes into a pipe. The test `isspace` and the results of `read` are parameters.
pub mod Words
pub mod Count
mod Tests
use sem.Prelude.{
  ℕ, ◌+◌, Bool, true, false, not, ◌&&◌, Option, none, some, List, [], ◌∷◌, ◌==◌, if◌then◌else◌,
  length,
}
use sem.Prelude.Int.{ℤ, pos, negsuc, ◌+ℤ◌, to_int}

-- `struct Counter_t`
pub record Counter : Type 0 where
  pub num_of_str : ℤ
  pub num_of_word : ℤ
  pub num_of_bytes : ℤ

-- What a call of `read` gives: the bytes that it stored, none at the end of the input, or -1.
pub data ReadResult : Type 0 where
  bytes : List ℕ → ReadResult
  failed : ReadResult

-- `Str_counter`: the loop, over the bytes that are left of the buffer.
unfoldable pub str_counter : List ℕ → ℕ → ℕ
str_counter [] num_of_str = num_of_str
str_counter (c ∷ buffer) num_of_str =
    str_counter buffer (if c == b'\n' then num_of_str + 1 else num_of_str)

-- The test of the loop, `res_read_bytes > 0`.
abbrev pub goes_on : ReadResult → Bool
goes_on (bytes []) = false
goes_on (bytes (c ∷ cs)) = true
goes_on failed = false

module _ (isspace : ℕ → Bool) where
  -- `Word_counter`: the loop, with the count and `*pos_in_word`.
  unfoldable pub word_counter : List ℕ → ℕ → Bool → ℕ × Bool
  word_counter [] num_of_words pos_in_word = (num_of_words, pos_in_word)
  word_counter (c ∷ buffer) num_of_words pos_in_word =
      let starts = not (isspace c) && not pos_in_word in
      word_counter buffer (if starts then num_of_words + 1 else num_of_words)
        (if starts then true else if isspace c then false else pos_in_word)

  -- The three additions of a round of `Counter_func`. With -1 for a size the counting loops make no
  -- round, and -1 is added to the bytes.
  unfoldable pub count_buffer : ReadResult → Counter → Bool → Counter × Bool
  unfolding word_counter str_counter to_int ◌+ℤ◌
  count_buffer (bytes buffer) cntrs pos_in_word =
      let (words, in_word) = word_counter buffer 0 pos_in_word in
      (
        record {
          num_of_str = to_int (cntrs.num_of_str +ℤ pos (str_counter buffer 0));
          num_of_word = to_int (cntrs.num_of_word +ℤ pos words);
          num_of_bytes = to_int (cntrs.num_of_bytes +ℤ pos (length buffer));
        },
        in_word,
      )
  count_buffer failed cntrs pos_in_word =
      (record cntrs { num_of_bytes = to_int (cntrs.num_of_bytes +ℤ negsuc 0) }, pos_in_word)

  -- The loop of `Counter_func` over the results of `read`; `none` if there are no more, so that the
  -- process still waits in `read`.
  unfoldable pub counter_loop : List ReadResult → Counter → Bool → Option Counter
  counter_loop [] cntrs pos_in_word = none
  counter_loop (result ∷ reads) cntrs pos_in_word =
      let (cntrs', in_word) = count_buffer result cntrs pos_in_word in
      let rest = counter_loop reads cntrs' in_word in if goes_on result then rest else some cntrs'

  -- `Counter_func` on the counters that `My_exec` passes to it.
  unfoldable pub counter_func : List ReadResult → Option Counter
  counter_func reads =
      counter_loop reads (record { num_of_str = pos 0; num_of_word = pos 0; num_of_bytes = pos 0 })
        false
