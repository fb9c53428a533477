-- ===== src/Cat/Tests.antt =====
-- my_cat.c at concrete results of the system calls.
use sem.Prelude.{ℕ, ◌≡◌, refl, true, false, some, List, [], ◌∷◌}
use sem.Prelude.Int.{ℤ, pos, negsuc}
use sem.Files
use sem.Simple.{simple_write}
use sem.Cat.{my_write, while_write, return, my_read, cat_files, cat_stdin}
use sem.Cat.Writes.{as_writing, my_write_same}
use sem.Cat.Output.{rounds_of, files_of, first_piece, first_pieces, cat_files_lem}

-- A short write and one that fails.
abbrev results : List ℤ
results = pos 2 ∷ negsuc 0 ∷ []

failed_write : (my_write results (pos 5)).returned ≡ some (pos 1)
unfolding while_write
failed_write = refl

my_write_same_example :
    (simple_write results (pos 5) (pos 0) (pos 0) ≡ Files.my_write results (pos 5))
    × (my_write results (pos 5) ≡ as_writing (Files.my_write results (pos 5)))
    × (my_write results (pos 0) ≡ return (pos 0))
my_write_same_example = my_write_same results 4

-- Two files, the first read in two pieces.
abbrev texts : List (List (ℕ × List ℕ))
texts = ((b'a', b'b' ∷ []) ∷ (b'c', []) ∷ []) ∷ ((b'd', []) ∷ []) ∷ []

printed : (cat_files (files_of texts)).output ≡ b'a' ∷ b'b' ∷ b'd' ∷ []
unfolding cat_files my_read
printed = refl

no_file :
    cat_files (record { opened = false; rounds = []; closed = true } ∷ [])
    ≡ record { output = []; returned = some (pos 1) }
unfolding cat_files
no_file = refl

cat_files_lem_example :
    (cat_files (files_of texts) ≡ record { output = first_pieces texts; returned = some (pos 0) })
    × (cat_stdin (rounds_of []) ≡ record { output = first_piece []; returned = some (pos 0) })
cat_files_lem_example = cat_files_lem texts []
