-- ===== src/Files/Copies.antt =====
-- What Dst_process, Copy_file, Buffer_processing and `main` make of the results of the system calls.
use sem.Prelude.{
  ℕ, ◌+◌, ◌<◌, ◌≡◌, ◌≢◌, refl, arith, ap, sym, Bool, true, false, List, [], ◌∷◌, ◌++◌, map, length,
  take, if◌then◌else◌, ◌⊎◌, length-append, ltb, lt→ltb, some, not, ◌||◌,
}
use sem.Prelude.Int.{ℤ, pos, negsuc}
use sem.Files.{
  Result, Calls, is_failure, is_zero, dst_process, copy_file, check_dir, copies, buffer_processing,
  main, eexist, enotdir, buffer_size, has_key, f_key, i_key,
}

-- Where both files can be opened and closed, Copy_file returns -1 when My_read has copied the file, and
-- 0 when it has not.
pub copy_file_inverted :
    (c : Calls) (flags : ℕ)
    → is_failure c.open_src ≡ false
    → (dst_process c (has_key flags f_key) (has_key flags i_key)).0 ≡ pos 0
    → is_failure c.close_dst ≡ false
    → is_failure c.close_src ≡ false
    → copy_file c flags ≡ (if c.my_read_true then negsuc 0 else pos 0)
unfolding copy_file
copy_file_inverted c flags src dst closed_dst closed_src =
    rw (src, dst, closed_dst, closed_src) (ground arith)

-- Where a failed `open` leaves an `errno` that is not 0: if Dst_process returns 0, the descriptor that
-- it leaves is open; and either the file was new, or it existed, -f or -i was given, and with -i the
-- answer to the prompt was yes.
pub dst_process_lem :
    (c : Calls) (is_f is_i : Bool)
    → (is_failure c.open_dst ≡ true → 0 < c.open_dst.errno)
    → (is_failure c.open_again ≡ true → 0 < c.open_again.errno)
    → (dst_process c is_f is_i).0 ≡ pos 0
    → (is_failure (record { value = (dst_process c is_f is_i).1; errno = 0 }) ≡ false)
      × ((is_failure c.open_dst ≡ false)
          ⊎ ((c.open_dst.errno ≡ eexist)
              × ((is_i || is_f) ≡ true)
              × ((not is_i || is_zero c.get_prompt) ≡ true)))
unfolding dst_process
dst_process_lem c is_f is_i some_errno some_again returned = (ground arith, ground arith)

take-length : (xs ys : List ℕ) → take (length xs) (xs ++ ys) ≡ xs
take-length [] ys = refl
take-length (x ∷ xs) ys = ap (λ zs. x ∷ zs) (take-length xs ys)

-- The paths that the names make in the directory, with the 0 behind each, fit into the array.
abbrev pub Fits : List ℕ → List (List ℕ) → Type 0
Fits directory [] = length directory + 1 < buffer_size
Fits directory (name ∷ names) =
    (length directory + 1 + length name < buffer_size) × Fits directory names

Fits-directory :
    (directory : List ℕ) (names : List (List ℕ))
    → Fits directory names
    → length directory + 1 < buffer_size
Fits-directory directory [] fits = fits
Fits-directory directory (name ∷ names) (fit, fits) = omega arith

copies_lem :
    (directory : List ℕ) (names : List (List ℕ)) (buffer : List ℕ)
    → length buffer ≡ length directory + 1
    → Fits directory names
    → copies names buffer (length buffer) ≡ some (map (λ name. (name, buffer ++ name)) names)
unfolding copies
copies_lem directory [] buffer same fits = refl
copies_lem directory (name ∷ names) buffer same (fit, fits) =
    let inside : ltb (length (buffer ++ name)) buffer_size ≡ true =
      lt→ltb _ _ (omega (arith, length-append buffer name)) in
    rw (inside, take-length buffer name, copies_lem directory names buffer same fits) refl

-- Where the paths fit into its array, Buffer_processing copies each file to its own name in the
-- directory, whatever the names before it.
pub buffer_processing_lem :
    (names : List (List ℕ)) (directory : List ℕ)
    → Fits directory names
    → buffer_processing names directory
      ≡ some (map (λ name. (name, (directory ++ (b'/' ∷ [])) ++ name)) names)
unfolding buffer_processing
buffer_processing_lem names directory fits =
    let size : length directory + 1 ≡ length (directory ++ (b'/' ∷ [])) =
      sym (length-append directory (b'/' ∷ [])) in
    let inside : ltb (length directory + 1) buffer_size ≡ true =
      lt→ltb _ _ (Fits-directory directory names fits) in
    rw (inside, size) (copies_lem directory names (directory ++ (b'/' ∷ [])) (sym size) fits)

-- Where the last name cannot be opened as a directory for another reason than ENOTDIR, as that it does
-- not exist, `main` returns 1, and with valid options it does so for no file that Copy_file copies.
pub main_refuses :
    (opened closed : Result) (flags copied : ℤ)
    → is_failure opened ≡ true
    → opened.errno ≢ enotdir
    → 0 < opened.errno
    → main flags (check_dir opened closed) copied ≡ pos 1
unfolding main check_dir
main_refuses opened closed flags copied fails other some_errno = ground arith
