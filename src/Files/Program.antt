-- ===== src/Files/Program.antt =====
-- `main` of 3sem/my_cp/my_cp.c as a whole: the keys, the names that follow them, and the copies that
-- Copy_file and Buffer_processing make, with what stands on the standard output.
pub mod Runs
use sem.Prelude.{
  ℕ, suc, ◌+◌, Bool, ◌==◌, ◌&&◌, not, ◌||◌, Option, none, some, List, [], ◌∷◌, ◌++◌, if◌then◌else◌,
}
use sem.Files.Prompt.{write_prompt}
use sem.Prelude.Int.{ℤ, pos, negsuc, ltb_ℤ}
use sem.Files.{
  Result, Calls, Getopt, is_failure, is_zero, is_inv_key, dst_process, copy_file, check_dir,
  buffer_processing, get_options, main, eexist, has_key, f_key, i_key, v_key,
}

unfoldable pub print_verb : List ℕ → List ℕ → List ℕ
print_verb src dst =
    (b'\'' ∷ [])
    ++ src
    ++ (b'\'' ∷ b' ' ∷ b'-' ∷ b'>' ∷ b' ' ∷ b'\'' ∷ [])
    ++ dst
    ++ (b'\'' ∷ 10 ∷ [])

-- What Copy_file prints, beside the prompt.
unfoldable pub copy_prints : Calls → ℕ → List ℕ × List ℕ → List ℕ
copy_prints c flags (src, dst) =
    if is_failure c.open_src
    then []
    else if not (is_zero (dst_process c (has_key flags f_key) (has_key flags i_key)).0)
        || c.my_read_true
    then []
    else if has_key flags v_key
    then print_verb src dst
    else []

-- The calls of Copy_file one after another: `calls i` is what those that number `i` makes return.
unfoldable pub copies_print : (ℕ → Calls) → ℕ → ℕ → List (List ℕ × List ℕ) → List ℕ
copies_print calls flags i [] = []
copies_print calls flags i (names ∷ rest) =
    copy_prints (calls i) flags names ++ copies_print calls flags (suc i) rest

-- What one Copy_file writes to ask whether it may overwrite the file; `writes` is what the calls of `write`
-- for the three parts of the prompt return.
unfoldable pub copy_asks : Calls → List ℤ × List ℤ × List ℤ → Bool → List ℕ → List ℕ
copy_asks c (for_fst, for_dst, for_sec) is_i dst =
    if is_failure c.open_src
    then []
    else if is_failure c.open_dst && (c.open_dst.errno == eexist) && is_i
    then write_prompt dst for_fst for_dst for_sec
    else []

-- The prompts of the calls of Copy_file one after another.
unfoldable pub copies_ask :
    (ℕ → Calls) → (ℕ → List ℤ × List ℤ × List ℤ) → Bool → ℕ → List (List ℕ × List ℕ) → List ℕ
copies_ask calls writes is_i i [] = []
copies_ask calls writes is_i i ((src, dst) ∷ rest) =
    copy_asks (calls i) (writes i) is_i dst ++ copies_ask calls writes is_i (suc i) rest

-- A run of `main`: what it returns, the calls of Copy_file, what `printf` prints of it, but for
-- Get_options, and what the prompts write to the standard output.
pub record Run : Type 0 where
  pub returned : ℤ
  pub copied : List (List ℕ × List ℕ)
  pub printed : List ℕ
  pub prompted : List ℕ

-- argv[argc - 1], and the names before it.
abbrev pub last_name : List ℕ → List (List ℕ) → List ℕ
last_name name [] = name
last_name name (next ∷ names) = last_name next names

abbrev pub before_last : List ℕ → List (List ℕ) → List (List ℕ)
before_last name [] = []
before_last name (next ∷ names) = name ∷ before_last next names

-- printf("Lack of arguments: %d\n", argc - optind)
abbrev pub lack_of_arguments : ℕ → Run
lack_of_arguments n = record {
  returned = pos 1;
  copied = [];
  printed =
      (b'L'
        ∷ b'a'
        ∷ b'c'
        ∷ b'k'
        ∷ b' '
        ∷ b'o'
        ∷ b'f'
        ∷ b' '
        ∷ b'a'
        ∷ b'r'
        ∷ b'g'
        ∷ b'u'
        ∷ b'm'
        ∷ b'e'
        ∷ b'n'
        ∷ b't'
        ∷ b's'
        ∷ b':'
        ∷ b' '
        ∷ (b'0' + n)
        ∷ 10
        ∷ []);
  prompted = [];
}

-- The bits of `flags`: Get_options returns no negative number but INV_KEY.
abbrev pub bits : ℤ → ℕ
bits (pos n) = n
bits (negsuc n) = 0

-- The calls of Copy_file, by what Check_dir returns on the last name.
abbrev pub copies_of : ℤ → List ℕ → List ℕ → List (List ℕ) → Option (List (List ℕ × List ℕ))
copies_of dir_checker first second rest =
    if ltb_ℤ dir_checker (pos 0)
    then buffer_processing (before_last first (second ∷ rest)) (last_name second rest)
    else if is_zero dir_checker
    then some ((first, second) ∷ [])
    else some []

module _ (calls : ℕ → Calls) (writes : ℕ → List ℤ × List ℤ × List ℤ) where
  abbrev pub run_of : ℤ → ℕ → Option (List (List ℕ × List ℕ)) → Option Run
  run_of returned flags none = none
  run_of returned flags (some copied) = some (record {
    returned = returned;
    copied = copied;
    printed = copies_print calls flags 0 copied;
    prompted = copies_ask calls writes (has_key flags i_key) 0 copied;
  })

  -- Behind Get_options, over argv + optind.
  unfoldable pub with_names : ℤ → List (List ℕ) → Result → Result → Option Run
  with_names flags [] opened closed = some (lack_of_arguments 0)
  with_names flags (name ∷ []) opened closed = some (lack_of_arguments 1)
  with_names flags (first ∷ second ∷ rest) opened closed =
      let dir_checker = check_dir opened closed in
      run_of (main flags dir_checker (copy_file (calls 0) (bits flags))) (bits flags)
        (copies_of dir_checker first second rest)

  abbrev pub with_flags : Option ℤ → List (List ℕ) → Result → Result → Option Run
  with_flags none names opened closed = none
  with_flags (some flags) names opened closed =
      if is_inv_key flags
      then some (record { returned = pos 1; copied = []; printed = []; prompted = [] })
      else with_names flags names opened closed

  -- `none` while Get_options has not returned, and where Buffer_processing writes over the end of its
  -- array.
  unfoldable pub my_cp : List Getopt → List (List ℕ) → Result → Result → Option Run
  my_cp options names opened closed = with_flags (get_options options 0) names opened closed
