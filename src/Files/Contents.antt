-- ===== src/Files/Contents.antt =====
-- What stands in the destination of my_cp.c after copying. `open` of a file that exists is without
-- O_TRUNC.
use sem.Prelude.{
  ℕ, ◌-◌, ◌≤◌, ◌≡◌, ◌↔◌, refl, sym, ap, ◌∙◌, arith, true, none, some, List, [], ◌∷◌, ◌++◌, length,
  length-append, drop,
}
use sem.Prelude.Int.{pos}
use sem.Files.{my_write, my_read}
use sem.Files.Bytes.{
  Round, RoundsGranted, results_of, transferred, written_bytes, read_bytes, my_read_exact,
}
use mathlib.Core.List.{append-nil, append_assoc}

-- An open file: the bytes before the position, and those behind it.
pub record OpenFile : Type 0 where
  pub before : List ℕ
  pub behind : List ℕ

abbrev pub contents : OpenFile → List ℕ
contents f = f.before ++ f.behind

-- `write` puts bytes at the position, over those that stand there, and moves it on.
abbrev pub write_to : OpenFile → List ℕ → OpenFile
write_to f bytes = record { before = f.before ++ bytes; behind = drop (length bytes) f.behind }

abbrev pub if_more_rounds : List ℕ → OpenFile → OpenFile → OpenFile
if_more_rounds [] f rest = f
if_more_rounds (c ∷ cs) f rest = rest

-- The destination behind the rounds of My_read.
abbrev pub file_after : OpenFile → List Round → OpenFile
file_after f [] = f
file_after f ((none, results) ∷ rounds) = f
file_after f ((some bytes, results) ∷ rounds) =
    let wrote : OpenFile =
      write_to f (transferred bytes (my_write results (pos (length bytes))).calls results) in
    if_more_rounds bytes wrote (file_after wrote rounds)

drop_nil : (xs : List ℕ) → ◌≡◌ {A = List ℕ} (drop (length xs) []) []
drop_nil [] = refl
drop_nil (x ∷ xs) = refl

drop-drop : (xs ys l : List ℕ) → drop (length ys) (drop (length xs) l) ≡ drop (length (xs ++ ys)) l
drop-drop [] ys l = refl
drop-drop (x ∷ xs) ys [] = drop_nil ys
drop-drop (x ∷ xs) ys (c ∷ l) = drop-drop xs ys l

write_to-append :
    (f : OpenFile) (xs ys : List ℕ) → write_to (write_to f xs) ys ≡ write_to f (xs ++ ys)
write_to-append f xs ys = rw (append_assoc f.before xs ys, drop-drop xs ys f.behind) refl

write_to_nil : (f : OpenFile) → f ≡ write_to f []
write_to_nil f = rw (append-nil f.before) refl

file_after_lem :
    (f : OpenFile) (rounds : List Round) → file_after f rounds ≡ write_to f (written_bytes rounds)
file_after_lem f [] = write_to_nil f
file_after_lem f ((none, results) ∷ rounds) = write_to_nil f
file_after_lem f ((some [], results) ∷ rounds) =
    let out : List ℕ = transferred [] (my_write results (pos 0)).calls results in
    ap (write_to f) (sym (append-nil out))
file_after_lem f ((some (c ∷ cs), results) ∷ rounds) =
    let out : List ℕ =
      transferred (c ∷ cs) (my_write results (pos (length (c ∷ cs)))).calls results in
    file_after_lem (write_to f out) rounds ∙ write_to-append f out (written_bytes rounds)

-- What is left behind the bytes that are written over it.
drop_all : (xs old : List ℕ) → length old ≤ length xs → drop (length xs) old ≡ []
drop_all xs [] low = drop_nil xs
drop_all [] (c ∷ old) low = absurd (omega arith)
drop_all (x ∷ xs) (c ∷ old) low = drop_all xs old (omega arith)

length-drop : (xs old : List ℕ) → length (drop (length xs) old) ≡ length old - length xs
length-drop xs [] = rw (drop_nil xs) (omega arith)
length-drop [] (c ∷ old) = omega arith
length-drop (x ∷ xs) (c ∷ old) = omega (arith, length-drop xs old)

-- Where My_read returns true on a destination that held `old`, and no write takes more than is left of
-- its buffer: the destination then holds what has been read and, behind it, what `old` had from there
-- on; so it is a copy exactly when `old` was no longer than what has been read.
pub copied_over :
    (old : List ℕ) (rounds : List Round)
    → RoundsGranted rounds
    → my_read (results_of rounds) ≡ some true
    → (contents (file_after (record { before = []; behind = old }) rounds)
        ≡ read_bytes rounds ++ drop (length (read_bytes rounds)) old)
      × ((contents (file_after (record { before = []; behind = old }) rounds) ≡ read_bytes rounds)
          ↔ (length old ≤ length (read_bytes rounds)))
copied_over old rounds granted done =
    let source : List ℕ = read_bytes rounds in
    let holds : contents (file_after (record { before = []; behind = old }) rounds)
        ≡ source ++ drop (length source) old =
      ap contents (file_after_lem (record { before = []; behind = old }) rounds)
      ∙ ap (λ bytes. bytes ++ drop (length bytes) old) (my_read_exact rounds granted done) in
    (
      holds,
      (
        λ same. omega (
          arith,
          ap length (sym holds ∙ same),
          length-append source (drop (length source) old),
          length-drop source old,
        ),
        λ low. holds ∙ ap (λ rest. source ++ rest) (drop_all source old low) ∙ append-nil source,
      ),
    )
