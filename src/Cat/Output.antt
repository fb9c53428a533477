-- ===== src/Cat/Output.antt =====
-- What my_cat.c prints.
use sem.Prelude.{ℕ, ◌≡◌, refl, ap, true, some, List, [], ◌∷◌, ◌++◌}
use sem.Prelude.Int.{pos}
use sem.Cat.{Round, File, my_read, cat_files, cat_stdin, func_prcss_error}
use mathlib.Core.List.{append-nil}

-- A round in which `read` gives these bytes and My_write writes them.
abbrev pub written : List ℕ → Round
written bytes = record { got = some bytes; wrote = pos 0; out = bytes }

-- The rounds on a file that is read in these pieces, none of them empty, and then ends.
abbrev pub rounds_of : List (ℕ × List ℕ) → List Round
rounds_of [] = written [] ∷ []
rounds_of ((c, cs) ∷ pieces) = written (c ∷ cs) ∷ rounds_of pieces

abbrev pub first_piece : List (ℕ × List ℕ) → List ℕ
first_piece [] = []
first_piece ((c, cs) ∷ pieces) = c ∷ cs

abbrev pub files_of : List (List (ℕ × List ℕ)) → List File
files_of [] = []
files_of (pieces ∷ texts) =
    record { opened = true; rounds = rounds_of pieces; closed = true } ∷ files_of texts

abbrev pub first_pieces : List (List (ℕ × List ℕ)) → List ℕ
first_pieces [] = []
first_pieces (pieces ∷ texts) = first_piece pieces ++ first_pieces texts

my_read_first :
    (pieces : List (ℕ × List ℕ))
    → my_read (rounds_of pieces)
      ≡ record { output = first_piece pieces; returned = some func_prcss_error }
unfolding my_read
my_read_first [] = refl
my_read_first ((c, cs) ∷ pieces) =
    ap (λ text. record { output = text; returned = some func_prcss_error }) (append-nil (c ∷ cs))

-- Where every `open`, `read`, `close` and My_write succeeds, in whatever pieces the files are read:
-- of each file that is named the first piece is printed and the rest is not, and 0 is returned; of the
-- standard input too the first piece is printed.
pub cat_files_lem :
    (texts : List (List (ℕ × List ℕ))) (input : List (ℕ × List ℕ))
    → (cat_files (files_of texts) ≡ record { output = first_pieces texts; returned = some (pos 0) })
      × (cat_stdin (rounds_of input)
          ≡ record { output = first_piece input; returned = some (pos 0) })
unfolding cat_files
cat_files_lem [] input = (refl, rw (my_read_first input, append-nil (first_piece input)) refl)
cat_files_lem (pieces ∷ texts) input =
    let (rest, stdin) = cat_files_lem texts input in (rw (my_read_first pieces, rest) refl, stdin)
