-- ===== src/Files/Tests.antt =====
-- The theorems on my_cp.c at concrete results of the system calls.
use sem.Prelude.{
  ℕ, ◌-◌, ◌≤◌, ◌↔◌, leb, ◌&&◌, if◌then◌else◌, length, drop, ◌≡◌, refl, arith, true, false, not,
  ◌||◌, none, some, List, [], ◌∷◌, ◌++◌, map, ◌⊎◌,
}
use sem.Prelude.Int.{ℤ, pos, negsuc, to_int, ◌+ℤ◌}
use sem.Files.{
  Result, Calls, unknown, end_of_keys, get_options, has_key, f_key, i_key, v_key, my_write,
  write_loop, my_read, dst_process, is_failure, is_zero, eexist, enotdir,
}
use sem.Files.Writes.{my_write_short}
use sem.Files.Bytes.{Round, results_of, read_bytes}
use sem.Files.Contents.{contents, file_after, copied_over}
use sem.Files.Prompt.{IsToupper, answered, line, failed, write_prompt, fst, sec, prompt_lem}
use sem.Files.Options.{f, get_options_lem, i, v, letter, asked}
use sem.Files.Copies.{dst_process_lem}
use sem.Files.Program.{my_cp, copy_asks, copies_ask, with_names, lack_of_arguments}
use sem.Files.Program.Runs.{into_directory, onto_file}

abbrev fine : Result
fine = record { value = pos 3; errno = 0 }

abbrev refused : ℕ → Result
refused e = record { value = negsuc 0; errno = e }

-- A source that is copied to a new file.
abbrev copied : Calls
copied = record {
  open_src = fine;
  open_dst = fine;
  get_prompt = pos 0;
  open_again = fine;
  my_read_true = true;
  close_dst = fine;
  close_src = fine;
}

-- The destination exists, and the answer is yes.
abbrev rewritten : Calls
rewritten = record copied {
  open_dst = refused 17;
  open_again = record { value = pos 4; errno = 17 };
}

whole : (my_write (pos 5 ∷ []) (pos 5)).returned ≡ some true
unfolding write_loop
whole = refl

copied_twice : my_read ((pos 4096, true) ∷ (pos 10, true) ∷ (pos 0, true) ∷ []) ≡ some true
unfolding my_read
copied_twice = refl

unknown_key : get_options (unknown ∷ []) 0 ≡ some (negsuc 1)
unfolding get_options
unknown_key = refl

my_write_short_example : (my_write (map pos (3 ∷ 2 ∷ 0 ∷ [])) (pos 5)).returned ≡ none
my_write_short_example =
    my_write_short 5 3 (2 ∷ 0 ∷ []) (omega arith) (omega arith) (omega arith, (omega arith, tt))

get_options_lem_example :
    (flags : ℕ) × (get_options (map letter (v ∷ f ∷ f ∷ []) ++ (end_of_keys ∷ [])) 0
      ≡ some (pos flags))
    × (has_key flags f_key ≡ asked f (v ∷ f ∷ f ∷ []))
    × (has_key flags i_key ≡ asked i (v ∷ f ∷ f ∷ []))
    × (has_key flags v_key ≡ asked v (v ∷ f ∷ f ∷ []))
get_options_lem_example = get_options_lem (v ∷ f ∷ f ∷ []) []

dst_process_lem_example :
    (is_failure (record { value = (dst_process rewritten false true).1; errno = 0 }) ≡ false)
    × ((is_failure (refused 17) ≡ false)
        ⊎ ((17 ≡ eexist) × ((true || false) ≡ true) × ((not true || is_zero (pos 0)) ≡ true)))
unfolding dst_process
dst_process_lem_example =
    dst_process_lem rewritten false true (λ e. omega arith) (λ e. omega arith) refl

abbrev names : List (List ℕ)
names = (b'a' ∷ []) ∷ (b'b' ∷ b'c' ∷ []) ∷ []

-- The calls of `write` for a prompt, each of which takes all.
abbrev prompts : ℕ → List ℤ × List ℤ × List ℤ
prompts j = (pos 14 ∷ [], pos 2 ∷ [], pos 4 ∷ [])

into_directory_example :
    my_cp
      (λ _. copied)
      prompts
      (map letter (v ∷ []) ++ (end_of_keys ∷ []))
      (names ++ ((b'd' ∷ []) ∷ []))
      fine
      fine
    ≡ some (record {
      returned = pos 0;
      copied =
          (b'a' ∷ [], b'd' ∷ b'/' ∷ b'a' ∷ [])
          ∷ (b'b' ∷ b'c' ∷ [], b'd' ∷ b'/' ∷ b'b' ∷ b'c' ∷ [])
          ∷ [];
      printed = [];
      prompted =
          copies_ask
            (λ _. copied)
            prompts
            (asked i (v ∷ []))
            0
            (map (λ n. (n, ((b'd' ∷ []) ++ (b'/' ∷ [])) ++ n)) names);
    })
into_directory_example =
    into_directory (λ _. copied) prompts fine fine (v ∷ []) [] (b'a' ∷ []) ((b'b' ∷ b'c' ∷ []) ∷ [])
      (b'd' ∷ []) refl refl (λ _. refl) (omega arith, (omega arith, omega arith))

-- The second file exists, and the answer is yes.
onto_file_example :
    my_cp
      (λ _. rewritten)
      prompts
      (map letter (i ∷ []) ++ (end_of_keys ∷ []))
      names
      (refused enotdir)
      fine
    ≡ some (record {
      returned = pos 1;
      copied = (b'a' ∷ [], b'b' ∷ b'c' ∷ []) ∷ [];
      printed = [];
      prompted = copy_asks rewritten (prompts 0) (asked i (i ∷ [])) (b'b' ∷ b'c' ∷ []);
    })
unfolding dst_process
onto_file_example =
    onto_file (λ _. rewritten) prompts (refused enotdir) fine (i ∷ []) [] (b'a' ∷ [])
      (b'b' ∷ b'c' ∷ []) [] refl refl refl refl refl refl

prompted_once :
    copy_asks rewritten (prompts 0) true (b'b' ∷ b'c' ∷ []) ≡ fst ++ ((b'b' ∷ b'c' ∷ []) ++ sec)
unfolding copy_asks write_prompt write_loop to_int ◌+ℤ◌
prompted_once = refl

lacking : my_cp (λ _. copied) prompts (end_of_keys ∷ []) [] fine fine ≡ some (lack_of_arguments 0)
unfolding my_cp with_names get_options
lacking = refl

-- A read of two bytes, of which the first write takes none and the second all, and the end.
abbrev two_rounds : List Round
two_rounds = (some (b'a' ∷ b'b' ∷ []), pos 0 ∷ pos 2 ∷ []) ∷ (some [], pos 0 ∷ []) ∷ []

reads_well : my_read (results_of two_rounds) ≡ some true
unfolding my_read write_loop to_int ◌+ℤ◌
reads_well = refl

-- A destination that is longer than the source keeps its end.
kept_end :
    contents (file_after (record { before = []; behind = b'x' ∷ b'y' ∷ b'z' ∷ [] }) two_rounds)
    ≡ b'a' ∷ b'b' ∷ b'z' ∷ []
unfolding write_loop to_int ◌+ℤ◌
kept_end = refl

copied_over_example :
    (contents (file_after (record { before = []; behind = b'x' ∷ [] }) two_rounds)
      ≡ read_bytes two_rounds ++ drop (length (read_bytes two_rounds)) (b'x' ∷ []))
    × ((contents (file_after (record { before = []; behind = b'x' ∷ [] }) two_rounds)
          ≡ read_bytes two_rounds)
        ↔ (1 ≤ length (read_bytes two_rounds)))
copied_over_example =
    copied_over (b'x' ∷ []) two_rounds ((omega arith, (omega arith, tt)), ((omega arith, tt), tt))
      reads_well

-- A destination that exists, and can be opened again.
abbrev exists_again : Calls
exists_again = record {
  open_src = fine;
  open_dst = refused eexist;
  get_prompt = pos 0;
  open_again = fine;
  my_read_true = true;
  close_dst = fine;
  close_src = fine;
}

-- `toupper` of the C locale.
abbrev toupper : ℕ → ℕ
toupper c = if leb b'a' c && leb c b'z' then c - 32 else c

toupper-IsToupper : IsToupper toupper
toupper-IsToupper = record {
  small = refl;
  large = refl;
  others = λ c not_small not_large upper. ground arith;
}

prompt_lem_example :
    ((answered toupper exists_again false 0 (line (b'Y' ∷ [])) ≡ pos 0)
      ↔ (◌≡◌ {A = ℕ} b'Y' b'y' ⊎ ◌≡◌ {A = ℕ} b'Y' b'Y'))
    × (answered toupper exists_again false 0 (failed 5) ≡ pos 1)
    × ((answered toupper exists_again false 0 (line []) ≡ pos 0)
        ↔ (◌≡◌ {A = ℕ} 0 b'y' ⊎ ◌≡◌ {A = ℕ} 0 b'Y'))
    × (write_prompt (b'f' ∷ []) (pos 14 ∷ []) (pos 1 ∷ []) (pos 4 ∷ [])
        ≡ fst ++ ((b'f' ∷ []) ++ sec))
prompt_lem_example =
    prompt_lem toupper-IsToupper exists_again false refl refl refl 0 b'Y' [] (b'f' ∷ []) 5
      (omega arith)
