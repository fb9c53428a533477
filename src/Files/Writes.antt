-- ===== src/Files/Writes.antt =====
-- What My_write does when `write` takes less than it is asked for.
use sem.Prelude.{
  ℕ, ◌+◌, ◌-◌, ◌<◌, ◌≤◌, ◌≡◌, refl, arith, true, false, none, List, [], ◌∷◌, map, ltb, ◌∙◌,
}
use sem.Prelude.Int.{ℤ, pos, ◌+ℤ◌, to_int}
use sem.Files.{write_loop, my_write}

-- Each write takes at most what is left.
abbrev pub IsGranted : ℕ → List ℕ → Type 0
IsGranted left [] = Unit
IsGranted left (r ∷ results) = (r ≤ left) × IsGranted (left - r) results

one_round :
    (n r : ℕ) (results : List ℤ) (written_size buffer : ℤ)
    → r < n
    → (write_loop (pos r ∷ results) (pos n) written_size buffer).returned
      ≡ (write_loop results
          (pos n)
          (to_int (written_size +ℤ pos r))
          (buffer +ℤ to_int (written_size +ℤ pos r))).returned
unfolding write_loop
one_round n r results written_size buffer less =
    let some_value : ltb (r + 0) 0 ≡ false = ground arith in
    let few : ltb (r + 0) (n + 0) ≡ true = ground arith in rw (some_value, few) refl

still_writing :
    (n left : ℕ) (results : List ℕ) (written_size buffer : ℤ)
    → left < n
    → IsGranted left results
    → (write_loop (map pos results) (pos n) written_size buffer).returned ≡ none
unfolding write_loop
still_writing n left [] written_size buffer less granted = refl
still_writing n left (r ∷ results) written_size buffer less (low, granted) =
    one_round n r (map pos results) written_size buffer (omega arith)
    ∙ still_writing n (left - r) results _ _ (omega arith) granted

-- When the first write takes a part of the `n` bytes, My_write does not return, whatever the later
-- writes take of what is left.
pub my_write_short :
    (n first : ℕ) (results : List ℕ)
    → 0 < first
    → first < n
    → IsGranted (n - first) results
    → (my_write (map pos (first ∷ results)) (pos n)).returned ≡ none
my_write_short n first results some_bytes short granted =
    one_round n first (map pos results) (pos 0) (pos 0) short
    ∙ still_writing n (n - first) results _ _ (omega arith) granted
