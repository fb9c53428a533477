-- ===== src/Pipe/Count.antt =====
-- What `Counter_func` counts, whatever pieces `read` gives the text in.
use sem.Prelude.{
  ℕ, ◌+◌, ◌^◌, ◌≤◌, ◌<◌, ◌≡◌, refl, arith, ap, sym, ◌∙◌, Bool, false, some, List, [], ◌∷◌, ◌++◌,
  length, length-append,
}
use sem.Prelude.Int.{pos, negsuc, ◌+ℤ◌, to_int, to_int-pos}
use sem.Pipe.{
  Counter, ReadResult, bytes, failed, word_counter, counter_loop, counter_func, count_buffer,
  goes_on,
}
use sem.Pipe.Words.{
  lines, words, word_counter_lem, word_counter-append, word_counter_from, word_counter-le-length,
  str_counter_lem, lines-append, lines-le-length, lines-nil, word_counter-nil, word_counter_place,
}

-- Reads that give some bytes each, and then one that does not: the end of the input or an error.
unfoldable pub reads_of : List (ℕ × List ℕ) → ReadResult → List ReadResult
reads_of [] last = last ∷ []
reads_of ((c, cs) ∷ pieces) last = bytes (c ∷ cs) ∷ reads_of pieces last

-- All that was read.
unfoldable pub text_of : List (ℕ × List ℕ) → List ℕ
text_of [] = []
text_of ((c, cs) ∷ pieces) = (c ∷ cs) ++ text_of pieces

to_int-add : (a b : ℕ) → a + b < 2 ^ 31 → to_int (pos a +ℤ pos b) ≡ pos (a + b)
unfolding ◌+ℤ◌
to_int-add a b small = ground (arith, to_int-pos (a + b))

to_int_pred : (n : ℕ) → n < 2 ^ 31 → to_int (pos (0 + n) +ℤ negsuc 0) ≡ pos n +ℤ negsuc 0
unfolding ◌+ℤ◌ to_int
to_int_pred n small = ground arith

-- Counters at three numbers.
abbrev counters : ℕ → ℕ → ℕ → Counter
counters l w n = record { num_of_str = pos l; num_of_word = pos w; num_of_bytes = pos n }

module _ (isspace : ℕ → Bool) where
  abbrev counted : List ℕ → Bool → ℕ
  counted text in_word = (word_counter isspace text 0 in_word).0

  abbrev left_in_word : List ℕ → Bool → Bool
  left_in_word text in_word = (word_counter isspace text 0 in_word).1

  count_buffer_lem :
      (buffer : List ℕ) (l w n : ℕ) (in_word : Bool)
      → l ≤ n
      → w ≤ n
      → n + length buffer < 2 ^ 31
      → count_buffer isspace (bytes buffer) (counters l w n) in_word ≡ (
        counters (l + lines buffer) (w + counted buffer in_word) (n + length buffer),
        left_in_word buffer in_word,
      )
  unfolding count_buffer
  count_buffer_lem buffer l w n in_word few_lines few_words small =
      let some_lines = lines-le-length buffer in
      let some_words = word_counter-le-length isspace buffer 0 in_word in
      rw
        (
          str_counter_lem buffer 0,
          to_int-add l (0 + lines buffer) (omega arith),
          to_int-add w (counted buffer in_word) (omega arith),
          to_int-add n (length buffer) (omega arith),
        )
        (ground arith)

  -- From counters that stand at numbers, over reads that all give bytes, up to the last.
  loop_counts :
      (pieces : List (ℕ × List ℕ)) (last : ReadResult) (l w n : ℕ) (in_word : Bool)
      → l ≤ n
      → w ≤ n
      → n + length (text_of pieces) < 2 ^ 31
      → goes_on last ≡ false
      → counter_loop isspace (reads_of pieces last) (counters l w n) in_word
        ≡ some
            (count_buffer isspace last
              (counters
                (l + lines (text_of pieces))
                (w + counted (text_of pieces) in_word)
                (n + length (text_of pieces)))
              (left_in_word (text_of pieces) in_word)).0
  unfolding counter_loop reads_of text_of
  loop_counts [] last l w n in_word few_lines few_words small stops =
      let lines_same : l + lines [] ≡ l = omega (arith, lines-nil) in
      let words_same : w + counted [] in_word ≡ w =
        omega (arith, ap (λ r. r.0) (word_counter-nil isspace 0 in_word)) in
      let bytes_same : n + 0 ≡ n = omega arith in
      let place_same : left_in_word [] in_word ≡ in_word =
        ap (λ r. r.1) (word_counter-nil isspace 0 in_word) in
      rw (lines_same, words_same, bytes_same, place_same, stops) refl
  loop_counts ((c, cs) ∷ pieces) last l w n in_word few_lines few_words small stops =
      rw (count_buffer_lem (c ∷ cs) l w n in_word few_lines few_words (omega (arith, parts))) (
        loop_counts pieces last (l + lines (c ∷ cs)) (w + counted (c ∷ cs) in_word)
          (n + length (c ∷ cs)) (left_in_word (c ∷ cs) in_word) (omega (arith, few))
          (omega (arith, fewer)) (omega (arith, parts)) stops
        ∙ rw (lines_sum, words_sum, bytes_sum, place_same) refl)
    where
      rest : List ℕ
      rest = text_of pieces

      parts : length ((c ∷ cs) ++ rest) ≡ length (c ∷ cs) + length rest
      parts = length-append (c ∷ cs) rest

      few : lines (c ∷ cs) ≤ length (c ∷ cs)
      few = lines-le-length (c ∷ cs)

      fewer : counted (c ∷ cs) in_word ≤ 0 + length (c ∷ cs)
      fewer = word_counter-le-length isspace (c ∷ cs) 0 in_word

      lines_sum : l + lines (c ∷ cs) + lines rest ≡ l + lines ((c ∷ cs) ++ rest)
      lines_sum = omega (arith, lines-append (c ∷ cs) rest)

      words_sum :
          w + counted (c ∷ cs) in_word + counted rest (left_in_word (c ∷ cs) in_word)
          ≡ w + counted ((c ∷ cs) ++ rest) in_word
      words_sum = omega (
        arith,
        ap (λ r. r.0) (word_counter-append isspace (c ∷ cs) rest 0 in_word),
        word_counter_from isspace rest (counted (c ∷ cs) in_word) (left_in_word (c ∷ cs) in_word),
      )

      bytes_sum : n + length (c ∷ cs) + length rest ≡ n + length ((c ∷ cs) ++ rest)
      bytes_sum = omega (arith, parts)

      place_same :
          left_in_word rest (left_in_word (c ∷ cs) in_word)
          ≡ left_in_word ((c ∷ cs) ++ rest) in_word
      place_same =
          word_counter_place isspace rest 0 (counted (c ∷ cs) in_word)
            (left_in_word (c ∷ cs) in_word)
          ∙ ap (λ r. r.1) (sym (word_counter-append isspace (c ∷ cs) rest 0 in_word))

  failed_end :
      (l w v n : ℕ) (in_word : Bool)
      → w ≡ v
      → n < 2 ^ 31
      → some (count_buffer isspace failed (counters (0 + l) (0 + w) (0 + n)) in_word).0
        ≡ some
            (record { num_of_str = pos l; num_of_word = pos v; num_of_bytes = pos n +ℤ negsuc 0 })
  unfolding count_buffer
  failed_end l w v n in_word e small = ground (arith, to_int_pred n)

  -- However `read` cuts up a text of fewer than 2^31 bytes, `Counter_func` counts its lines, its words
  -- (the longest runs of characters that are no space) and its bytes.
  pub counter_func_lem :
      (pieces : List (ℕ × List ℕ))
      → length (text_of pieces) < 2 ^ 31
      → counter_func isspace (reads_of pieces (bytes []))
        ≡ some (record {
          num_of_str = pos (lines (text_of pieces));
          num_of_word = pos (length (words isspace (text_of pieces)));
          num_of_bytes = pos (length (text_of pieces));
        })
  unfolding counter_func
  counter_func_lem pieces small =
      loop_counts pieces (bytes []) 0 0 0 false (omega arith) (omega arith) (omega arith) refl
      ∙ rw
          (count_buffer_lem [] (0 + lines text) (0 + counted text false) (0 + length text)
            (left_in_word text false) (omega (arith, lines-le-length text))
            (omega (arith, word_counter-le-length isspace text 0 false)) (omega arith))
          (rw (all_lines, all_words, all_bytes) refl)
    where
      text : List ℕ
      text = text_of pieces

      all_lines : 0 + lines text + lines [] ≡ lines text
      all_lines = omega (arith, lines-nil)

      all_words :
          0 + counted text false + counted [] (left_in_word text false)
          ≡ length (words isspace text)
      all_words = omega (
        arith,
        word_counter_lem isspace text 0 false,
        ap (λ r. r.0) (word_counter-nil isspace 0 (left_in_word text false)),
      )

      all_bytes : 0 + length text + 0 ≡ length text
      all_bytes = omega arith

  -- Where `read` fails after fewer than 2^31 bytes, `Counter_func` counts the lines and the words read
  -- before, and one byte less than were read.
  pub counter_func-failed :
      (pieces : List (ℕ × List ℕ))
      → length (text_of pieces) < 2 ^ 31
      → counter_func isspace (reads_of pieces failed)
        ≡ some (record {
          num_of_str = pos (lines (text_of pieces));
          num_of_word = pos (length (words isspace (text_of pieces)));
          num_of_bytes = pos (length (text_of pieces)) +ℤ negsuc 0;
        })
  unfolding counter_func
  counter_func-failed pieces small =
      loop_counts pieces failed 0 0 0 false (omega arith) (omega arith) (omega arith) refl
      ∙ failed_end (lines text) (counted text false) (length (words isspace text)) (length text)
          (left_in_word text false) (omega (arith, word_counter_lem isspace text 0 false)) small
    where
      text : List ℕ
      text = text_of pieces
