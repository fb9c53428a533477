-- ===== src/Files/Program/Runs.antt =====
-- Whole runs of my_cp.c: into a directory, and onto a file.
use mathlib.Core.List.{append-nil}
use sem.Prelude.{
  ℕ, suc, ◌≡◌, refl, ap, arith, Bool, true, false, not, ◌&&◌, some, List, [], ◌∷◌, ◌++◌, map,
  if◌then◌else◌,
}
use sem.Prelude.Int.{ℤ, pos, negsuc}
use sem.Files.{
  Result, Calls, Getopt, end_of_keys, is_failure, is_zero, dst_process, copy_file, check_dir,
  buffer_processing, main, has_key, f_key, i_key, v_key, enotdir,
}
use sem.Files.Options.{Key, f, i, v, letter, asked, get_options_lem}
use sem.Files.Copies.{Fits, buffer_processing_lem, copy_file_inverted}
use sem.Files.Program.{
  print_verb, copy_prints, copies_print, copy_asks, copies_ask, run_of, Run, last_name, before_last,
  with_names, my_cp,
}

before_last_lem :
    (name : List ℕ) (names : List (List ℕ)) (directory : List ℕ)
    → before_last name (names ++ (directory ∷ [])) ≡ name ∷ names
before_last_lem name [] directory = refl
before_last_lem name (next ∷ names) directory =
    ap (λ ns. name ∷ ns) (before_last_lem next names directory)

last_name_lem :
    (name : List ℕ) (names : List (List ℕ)) (directory : List ℕ)
    → last_name name (names ++ (directory ∷ [])) ≡ directory
last_name_lem name [] directory = refl
last_name_lem name (next ∷ names) directory = last_name_lem next names directory

-- A copy that has worked prints nothing.
copies_print-worked :
    (calls : ℕ → Calls) (flags k : ℕ) (names : List (List ℕ × List ℕ))
    → ((j : ℕ) → (calls j).my_read_true ≡ true)
    → copies_print calls flags k names ≡ []
unfolding copies_print copy_prints
copies_print-worked calls flags k [] worked = refl
copies_print-worked calls flags k (names ∷ rest) worked =
    rw (worked k, copies_print-worked calls flags (suc k) rest worked) (ground arith)

check_dir-directory :
    (opened closed : Result)
    → is_failure opened ≡ false
    → is_failure closed ≡ false
    → check_dir opened closed ≡ negsuc 0
unfolding check_dir
check_dir-directory opened closed opens closes = rw (opens, closes) refl

check_dir-file :
    (opened closed : Result)
    → is_failure opened ≡ true
    → opened.errno ≡ enotdir
    → check_dir opened closed ≡ pos 0
unfolding check_dir
check_dir-file opened closed fails not_dir = rw (fails, not_dir) refl

-- What one copy prints where its files can be opened.
copy_prints-opened :
    (c : Calls) (flags : ℕ) (first second : List ℕ)
    → is_failure c.open_src ≡ false
    → (dst_process c (has_key flags f_key) (has_key flags i_key)).0 ≡ pos 0
    → copy_prints c flags (first, second)
      ≡ (if not c.my_read_true && has_key flags v_key then print_verb first second else [])
unfolding copy_prints
copy_prints-opened c flags first second src dst = rw (src, dst) (ground arith)

abbrev one_copy : ℤ → List ℕ → List ℕ → List ℕ → List ℕ → Run
one_copy returned first second printed prompted = record {
  returned = returned;
  copied = (first, second) ∷ [];
  printed = printed;
  prompted = prompted;
}

one_copy-answers :
    (read_true : Bool) (first second printed prompted : List ℕ)
    → one_copy
        (if is_zero (if read_true then negsuc 0 else pos 0) then pos 0 else pos 1)
        first
        second
        printed
        prompted
      ≡ one_copy (if read_true then pos 1 else pos 0) first second printed prompted
one_copy-answers true first second printed prompted = refl
one_copy-answers false first second printed prompted = refl

module _ (calls : ℕ → Calls) (writes : ℕ → List ℤ × List ℤ × List ℤ) (opened closed : Result) where
  with_names-directory :
      (flags : ℕ) (name : List ℕ) (names : List (List ℕ)) (directory : List ℕ)
      → check_dir opened closed ≡ negsuc 0
      → with_names calls writes (pos flags) (name ∷ (names ++ (directory ∷ []))) opened closed
        ≡ run_of calls writes (pos 0) flags (buffer_processing (name ∷ names) directory)
  unfolding with_names main
  with_names-directory flags name [] directory is_dir = rw is_dir refl
  with_names-directory flags name (next ∷ names) directory is_dir =
      rw (is_dir, before_last_lem next names directory, last_name_lem next names directory) refl

  with_names-file :
      (flags : ℕ) (first second : List ℕ) (rest : List (List ℕ))
      → check_dir opened closed ≡ pos 0
      → with_names calls writes (pos flags) (first ∷ second ∷ rest) opened closed
        ≡ some (record {
          returned = if is_zero (copy_file (calls 0) flags) then pos 0 else pos 1;
          copied = (first, second) ∷ [];
          printed = copy_prints (calls 0) flags (first, second) ++ [];
          prompted = copy_asks (calls 0) (writes 0) (has_key flags i_key) second ++ [];
        })
  unfolding with_names main copies_print copies_ask
  with_names-file flags first second rest is_file = rw is_file (ground arith)

  -- Where the keys are known, the last of the names is a directory, its paths fit into the array of
  -- Buffer_processing, and My_read succeeds in every copy, `main` returns 0 and calls Copy_file for each
  -- other name in turn, with its own name in the directory; the copies print no line, with -v neither,
  -- and ask, with -i, for the files that exist.
  pub into_directory :
      (keys : List Key) (behind : List Getopt) (name : List ℕ) (names : List (List ℕ))
      (directory : List ℕ)
      → is_failure opened ≡ false
      → is_failure closed ≡ false
      → ((j : ℕ) → (calls j).my_read_true ≡ true)
      → Fits directory (name ∷ names)
      → my_cp calls writes
          (map letter keys ++ (end_of_keys ∷ behind))
          ((name ∷ names) ++ (directory ∷ []))
          opened
          closed
        ≡ some (record {
          returned = pos 0;
          copied = map (λ n. (n, (directory ++ (b'/' ∷ [])) ++ n)) (name ∷ names);
          printed = [];
          prompted =
              copies_ask calls writes
                (asked i keys)
                0
                (map (λ n. (n, (directory ++ (b'/' ∷ [])) ++ n)) (name ∷ names));
        })
  unfolding my_cp
  into_directory keys behind name names directory opens closes worked fits =
      let (flags, found, is_f, is_i, is_v) = get_options_lem keys behind in
      rw
        (
          found,
          with_names-directory flags name names directory
              (check_dir-directory opened closed opens closes),
          buffer_processing_lem (name ∷ names) directory fits,
          copies_print-worked calls flags 0
              (map (λ n. (n, (directory ++ (b'/' ∷ [])) ++ n)) (name ∷ names)) worked,
          is_i,
        )
        refl

  -- Where the keys are known, the last of the names is a file, the first name can be opened, Dst_process
  -- returns 0 for the second, which is new or may be overwritten, and both files can be closed: `main` copies the
  -- first name over the second, whatever names follow; it returns 1 if My_read has copied the file,
  -- and 0 if it has not, and then prints the line of -v, where -v is given; with -i it has asked, where
  -- the second exists.
  pub onto_file :
      (keys : List Key) (behind : List Getopt) (first second : List ℕ) (rest : List (List ℕ))
      → is_failure opened ≡ true
      → opened.errno ≡ enotdir
      → is_failure (calls 0).open_src ≡ false
      → (dst_process (calls 0) (asked f keys) (asked i keys)).0 ≡ pos 0
      → is_failure (calls 0).close_dst ≡ false
      → is_failure (calls 0).close_src ≡ false
      → my_cp calls writes
          (map letter keys ++ (end_of_keys ∷ behind))
          (first ∷ second ∷ rest)
          opened
          closed
        ≡ some (record {
          returned = if (calls 0).my_read_true then pos 1 else pos 0;
          copied = (first, second) ∷ [];
          printed =
              if not (calls 0).my_read_true && asked v keys then print_verb first second else [];
          prompted = copy_asks (calls 0) (writes 0) (asked i keys) second;
        })
  unfolding my_cp
  onto_file keys behind first second rest fails not_dir src dst closed_dst closed_src =
      let (flags, found, is_f, is_i, is_v) = get_options_lem keys behind in
      let dst' : (dst_process (calls 0) (has_key flags f_key) (has_key flags i_key)).0 ≡ pos 0 =
        rw (is_f, is_i) dst in
      rw
        (
          found,
          with_names-file flags first second rest (check_dir-file opened closed fails not_dir),
          copy_prints-opened (calls 0) flags first second src dst',
          copy_file_inverted (calls 0) flags src dst' closed_dst closed_src,
          is_v,
          is_i,
          append-nil,
          append-nil,
        )
        (ap some (one_copy-answers (calls 0).my_read_true first second _ _))
