-- ===== src/Cat.antt =====
-- 3sem/my_cat.c: printing files. The results of the system calls are arguments. Two slips of the pen,
-- in lines 34 and 58, keep the file from being compiled; they are read as `perror("…")` and
-- `return NEGATIVE_VAR;`.
pub mod Writes
pub mod Output
mod Tests
use sem.Prelude.{ℕ, Bool, true, false, not, Option, none, some, List, [], ◌∷◌, ◌++◌, if◌then◌else◌}
use sem.Prelude.Int.{ℤ, pos, ◌+ℤ◌, ◌-ℤ◌, ltb_ℤ, is_pos, to_int}

-- `enum ERRORS`
abbrev pub negative_var : ℤ
negative_var = pos 1

abbrev pub func_prcss_error : ℤ
func_prcss_error = pos 2

-- The calls of `write`, each with the offset in the buffer and the size, and what My_write returns;
-- `none` while it has not returned.
pub record Writing : Type 0 where
  pub calls : List (ℤ × ℤ)
  pub returned : Option ℤ

abbrev pub call : ℤ → ℤ → Writing → Writing
call offset size w = record w { calls = (offset, size) ∷ w.calls }

abbrev pub return : ℤ → Writing
return z = record { calls = []; returned = some z }

-- The loop of My_write over the results of `write`; `buffer` is how far the pointer has moved.
unfoldable pub while_write : List ℤ → ℤ → ℤ → ℤ → ℤ → Writing
while_write [] res_of_read res_of_write written_size buffer =
    if ltb_ℤ res_of_write res_of_read
    then record { calls = []; returned = none }
    else return (pos 0)
while_write (result ∷ results) res_of_read res_of_write written_size buffer =
    let size = to_int (written_size +ℤ result) in
    let rest = while_write results res_of_read result size (buffer +ℤ size) in
    if ltb_ℤ res_of_write res_of_read
    then call buffer (res_of_read -ℤ written_size)
        (if ltb_ℤ result (pos 0) then return negative_var else rest)
    else return (pos 0)

abbrev pub my_write : List ℤ → ℤ → Writing
my_write results res_of_read = while_write results res_of_read (pos 0) (pos 0) (pos 0)

-- A round of My_read: what `read` gives, `none` for -1; what My_write returns; and what that wrote.
pub record Round : Type 0 where
  pub got : Option (List ℕ)
  pub wrote : ℤ
  pub out : List ℕ

-- What is printed, and what is returned.
pub record Printed : Type 0 where
  pub output : List ℕ
  pub returned : Option ℤ

abbrev pub print : List ℕ → Printed → Printed
print text p = record p { output = text ++ p.output }

abbrev pub is_empty : List ℕ → Bool
is_empty [] = true
is_empty (c ∷ cs) = false

abbrev pub stop : ℤ → Printed
stop z = record { output = []; returned = some z }

-- Behind a `read` that succeeds: `!My_write(…)` holds where My_write has returned 0.
abbrev pub after_read : List ℕ → Round → Printed → Printed
after_read bytes round rest = print round.out (
    if is_pos 0 round.wrote
    then stop func_prcss_error
    else if is_empty bytes
    then stop (pos 0)
    else rest)

abbrev pub read_round : Option (List ℕ) → Round → Printed → Printed
read_round none round rest = stop negative_var
read_round (some bytes) round rest = after_read bytes round rest

unfoldable pub my_read : List Round → Printed
my_read [] = record { output = []; returned = none }
my_read (round ∷ rounds) = let rest = my_read rounds in read_round round.got round rest

-- A file that is named: whether `open` fails, the rounds of My_read on it, and whether `close` succeeds.
pub record File : Type 0 where
  pub opened : Bool
  pub rounds : List Round
  pub closed : Bool

-- Behind My_read on a file, with what follows.
abbrev pub after_file : Option ℤ → Bool → Printed → Printed
after_file none closed rest = record { output = []; returned = none }
after_file (some z) closed rest =
    if is_pos 0 z then stop func_prcss_error else if not closed then stop func_prcss_error else rest

-- The loop of `main` over the names.
unfoldable pub cat_files : List File → Printed
cat_files [] = stop (pos 0)
cat_files (file ∷ files) =
    let rest = cat_files files in
    if not file.opened
    then stop negative_var
    else print (my_read file.rounds).output
        (after_file (my_read file.rounds).returned file.closed rest)

-- `main` without names, or with a first argument that begins with '-'.
abbrev pub cat_stdin : List Round → Printed
cat_stdin rounds =
    print (my_read rounds).output (after_file (my_read rounds).returned true (stop (pos 0)))
