-- ===== src/Files/Prompt.antt =====
-- The prompt of my_cp.c, behind the option -i.
use sem.Prelude.{
  ℕ, ◌<◌, ◌≡◌, ◌≢◌, ◌↔◌, ◌⊎◌, refl, arith, Bool, true, false, List, [], ◌∷◌, ◌++◌, length, ◌==◌,
  if◌then◌else◌, Bool-cases, inl, inr, ◌∙◌, ap, ==_iff, sym, ℕ_discrete,
}
use sem.Prelude.Int.{ℤ, pos, negsuc}
use sem.Files.{Calls, is_failure, is_zero, dst_process, eexist, my_write}
use sem.Files.Bytes.{transferred, my_write_exact, my_write_whole, is_true}

-- The strings of Write_prompt as they are stored, with the 0 at their ends.
abbrev pub fst : List ℕ
fst =
    b'c' ∷ b'p' ∷ b':' ∷ b' ' ∷ b'r' ∷ b'e' ∷ b'w' ∷ b'r' ∷ b'i' ∷ b't' ∷ b'e' ∷ b' ' ∷ 39 ∷ 0 ∷ []

abbrev pub sec : List ℕ
sec = 39 ∷ b'?' ∷ b' ' ∷ 0 ∷ []

-- What My_write brings to the standard output, by the results of `write`.
abbrev pub put_out : List ℕ → List ℤ → List ℕ
put_out buffer results = transferred buffer (my_write results (pos (length buffer))).calls results

-- Write_prompt; `sizeof` counts the 0 too, `strlen` does not.
unfoldable pub write_prompt : List ℕ → List ℤ → List ℤ → List ℤ → List ℕ
write_prompt dst for_fst for_dst for_sec =
    put_out fst for_fst ++ (put_out dst for_dst ++ put_out sec for_sec)

-- What `read` gives: -1 with an `errno`, or bytes.
pub data Answer : Type 0 where
  failed : ℕ → Answer
  line : List ℕ → Answer

-- buffer[0], where the buffer held `garbage` there before.
abbrev pub first_of : ℕ → List ℕ → ℕ
first_of garbage [] = garbage
first_of garbage (c ∷ cs) = c

-- What Get_prompt returns.
unfoldable pub get_prompt : (ℕ → ℕ) → ℕ → Answer → ℤ
get_prompt toupper garbage (failed errno) = pos errno
get_prompt toupper garbage (line bytes) =
    if toupper (first_of garbage bytes) == b'Y' then pos 0 else negsuc 0

-- What Dst_process returns where -i is given and the answer is this.
abbrev pub answered : (ℕ → ℕ) → Calls → Bool → ℕ → Answer → ℤ
answered toupper c is_f garbage answer =
    (dst_process (record c { get_prompt = get_prompt toupper garbage answer }) is_f true).0

-- What the standard says of `toupper`.
pub record IsToupper (toupper : ℕ → ℕ) : Type 0 where
  pub small : toupper b'y' ≡ b'Y'
  pub large : toupper b'Y' ≡ b'Y'
  pub others : (c : ℕ) → c ≢ b'y' → c ≢ b'Y' → toupper c ≢ b'Y'

-- The destination exists, and -i is given.
asked :
    (c : Calls) (is_f : Bool)
    → is_failure c.open_dst ≡ true
    → c.open_dst.errno ≡ eexist
    → is_failure c.open_again ≡ false
    → (dst_process c is_f true).0 ≡ (if is_zero c.get_prompt then pos 0 else pos 1)
unfolding dst_process
asked c is_f exists eexists opened = ground arith

put_whole : (buffer : List ℕ) → put_out buffer (pos (length buffer) ∷ []) ≡ buffer
put_whole buffer =
    my_write_exact buffer (pos (length buffer) ∷ []) (omega arith, tt)
      (ap is_true (my_write_whole (length buffer)))

module _ {toupper : ℕ → ℕ} (law : IsToupper toupper) where
  yes_cases : (c : ℕ) → (toupper c ≡ b'Y') ↔ ((c ≡ b'y') ⊎ (c ≡ b'Y'))
  yes_cases c = (
    λ upper. elim (ℕ_discrete c b'y') [
      | yes small ↦ inl small
      | no not_small ↦ elim (ℕ_discrete c b'Y') [
        | yes large ↦ inr large
        | no not_large ↦ absurd (law.others c not_small not_large upper)
      ]
    ],
    λ either. elim either [ inl small ↦ rw small law.small | inr large ↦ rw large law.large ],
  )

  module _ (c : Calls) (is_f : Bool) (exists : is_failure c.open_dst ≡ true)
      (eexists : c.open_dst.errno ≡ eexist) (opened : is_failure c.open_again ≡ false)
      (garbage : ℕ) where
    line_iff :
        (bytes : List ℕ)
        → (answered toupper c is_f garbage (line bytes) ≡ pos 0)
          ↔ ((first_of garbage bytes ≡ b'y') ⊎ (first_of garbage bytes ≡ b'Y'))
    unfolding get_prompt
    line_iff bytes =
        let first : ℕ = first_of garbage bytes in
        let returned : answered toupper c is_f garbage (line bytes)
            ≡ (if is_zero (get_prompt toupper garbage (line bytes)) then pos 0 else pos 1) =
          asked (record c { get_prompt = get_prompt toupper garbage (line bytes) }) is_f exists
            eexists opened in
        elim (Bool-cases (toupper first == b'Y')) [
          | inl is_yes ↦ (
            λ e. (yes_cases first).0 ((==_iff (toupper first) b'Y').0 is_yes),
            λ either. returned ∙ rw is_yes refl,
          )
          | inr no_yes ↦ (
            λ e. absurd (returned_apart (sym e ∙ returned ∙ rw no_yes refl)),
            λ either.
                absurd (
                  apart
                    (sym no_yes ∙ (==_iff (toupper first) b'Y').1 ((yes_cases first).1 either))),
          )
        ]
      where
        returned_apart : pos 0 ≢ pos 1
        returned_apart e = cc

        apart : false ≢ true
        apart e = cc

    -- Where the destination exists, -i is given, and it can be opened again: Dst_process returns 0, so
    -- that the file is overwritten, exactly when the answer begins with y or Y; it returns 1 where the
    -- answer cannot be read; and at the end of the input it goes by what stood in the buffer before.
    -- Where each write takes all, the prompt is the text with the name of the destination in it, and
    -- with a byte 0 before that name and at its end.
    pub prompt_lem :
        (first : ℕ) (rest dst : List ℕ) (errno : ℕ)
        → 0 < errno
        → ((answered toupper c is_f garbage (line (first ∷ rest)) ≡ pos 0)
            ↔ ((first ≡ b'y') ⊎ (first ≡ b'Y')))
          × (answered toupper c is_f garbage (failed errno) ≡ pos 1)
          × ((answered toupper c is_f garbage (line []) ≡ pos 0)
              ↔ ((garbage ≡ b'y') ⊎ (garbage ≡ b'Y')))
          × (write_prompt dst (pos 14 ∷ []) (pos (length dst) ∷ []) (pos 4 ∷ [])
              ≡ fst ++ (dst ++ sec))
    unfolding get_prompt write_prompt
    prompt_lem first rest dst errno some_errno = (
      line_iff (first ∷ rest),
      asked (record c { get_prompt = pos errno }) is_f exists eexists opened ∙ ground arith,
      line_iff [],
      rw (put_whole fst, put_whole dst, put_whole sec) refl,
    )
