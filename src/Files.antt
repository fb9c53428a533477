-- ===== src/Files.antt =====
-- 3sem/my_cp/my_cp.c: copying files. The results of the system calls are arguments: of `write` and of
-- `getopt_long` a list, one for each call; of the others one each, with the `errno` that they leave.
pub mod Writes
pub mod Options
pub mod Copies
pub mod Bytes
pub mod Prompt
pub mod Contents
pub mod Program
mod Tests
use sem.Prelude.{
  ℕ, zero, suc, ◌+◌, ◌-◌, ◌/◌, ◌%◌, Bool, true, false, not, ◌&&◌, ◌||◌, Option, none, some, List,
  [], ◌∷◌, ◌++◌, length, take, ltb, ◌==◌, if◌then◌else◌,
}
use sem.Prelude.Int.{ℤ, pos, negsuc, ◌+ℤ◌, ◌-ℤ◌, ltb_ℤ, to_int}

abbrev pub is_zero : ℤ → Bool
is_zero (pos n) = n == 0
is_zero (negsuc n) = false

-- The calls of `write` that My_write makes, each with the offset in the buffer and the size it asks
-- for, and what it returns; `none` while it has not returned.
pub record Written : Type 0 where
  pub calls : List (ℤ × ℤ)
  pub returned : Option Bool

abbrev pub call : ℤ → ℤ → Written → Written
call offset size w = record w { calls = (offset, size) ∷ w.calls }

-- The loop of My_write over the results of `write`; `buffer` is how far the pointer has moved.
unfoldable pub write_loop : List ℤ → ℤ → ℤ → ℤ → Written
write_loop [] res_of_read written_size buffer = record { calls = []; returned = none }
write_loop (res_of_write ∷ results) res_of_read written_size buffer =
    let size = to_int (written_size +ℤ res_of_write) in
    let rest = write_loop results res_of_read size (buffer +ℤ size) in
    call buffer (res_of_read -ℤ written_size) (
      if ltb_ℤ res_of_write (pos 0)
      then record { calls = []; returned = some false }
      else if ltb_ℤ res_of_write res_of_read
      then rest
      else record { calls = []; returned = some true })

abbrev pub my_write : List ℤ → ℤ → Written
my_write results res_of_read = write_loop results res_of_read (pos 0) (pos 0)

-- The loop of My_read: the results of `read`, each with what My_write returns on it.
unfoldable pub my_read : List (ℤ × Bool) → Option Bool
my_read [] = none
my_read ((res_of_read, wrote) ∷ results) =
    let rest = my_read results in
    if ltb_ℤ res_of_read (pos 0)
    then some false
    else if not wrote
    then some false
    else if ltb_ℤ (pos 0) res_of_read
    then rest
    else some true

abbrev pub f_key : ℕ
f_key = 1

abbrev pub i_key : ℕ
i_key = 2

abbrev pub v_key : ℕ
v_key = 4

-- `flags & key` for a key of one bit, and `flag |= key`.
abbrev pub has_key : ℕ → ℕ → Bool
has_key flags key = flags / key % 2 == 1

abbrev pub set_key : ℕ → ℕ → ℕ
set_key flag key = if has_key flag key then flag else flag + key

-- What `getopt_long` returns.
pub data Getopt : Type 0 where
  unknown : Getopt  -- '?'
  force interactive verbose : Getopt  -- 'f', 'i', 'v'
  end_of_keys : Getopt  -- -1
  other : ℤ → Getopt

-- INV_KEY
abbrev pub inv_key : ℤ
inv_key = negsuc 1

abbrev pub is_inv_key : ℤ → Bool
is_inv_key (pos n) = false
is_inv_key (negsuc n) = n == 1

unfoldable pub get_options : List Getopt → ℕ → Option ℤ
get_options [] flag = none
get_options (unknown ∷ results) flag = some inv_key
get_options (force ∷ results) flag = get_options results (set_key flag f_key)
get_options (interactive ∷ results) flag = get_options results (set_key flag i_key)
get_options (verbose ∷ results) flag = get_options results (set_key flag v_key)
get_options (end_of_keys ∷ results) flag = some (pos flag)
get_options (other r ∷ results) flag = some inv_key

-- A result of `open` or `close`, with `errno` after the call.
pub record Result : Type 0 where
  pub value : ℤ
  pub errno : ℕ

abbrev pub is_failure : Result → Bool
is_failure r = ltb_ℤ r.value (pos 0)

abbrev pub eexist : ℕ
eexist = 17

abbrev pub enotdir : ℕ
enotdir = 20

-- What the calls of one Copy_file return: the `open` of both files, what Get_prompt returns, the
-- second `open` of the destination, whether My_read returns true, and both `close`.
pub record Calls : Type 0 where
  pub open_src : Result
  pub open_dst : Result
  pub get_prompt : ℤ
  pub open_again : Result
  pub my_read_true : Bool
  pub close_dst : Result
  pub close_src : Result

-- What Dst_process returns, and the descriptor it leaves.
unfoldable pub dst_process : Calls → Bool → Bool → ℤ × ℤ
dst_process c is_f is_i =
    if is_failure c.open_dst
    then if (c.open_dst.errno == eexist) && (is_i || is_f)
      then if is_i && not (is_zero c.get_prompt)
        then (pos 1, c.open_dst.value)
        else if is_failure c.open_again
        then (pos c.open_again.errno, c.open_again.value)
        else (pos 0, c.open_again.value)
      else (pos c.open_dst.errno, c.open_dst.value)
    else (pos 0, c.open_dst.value)

unfoldable pub copy_file : Calls → ℕ → ℤ
copy_file c flags =
    if is_failure c.open_src
    then pos c.open_src.errno
    else if not (is_zero (dst_process c (has_key flags f_key) (has_key flags i_key)).0)
        || c.my_read_true
    then negsuc 0
    else if is_failure c.close_dst
    then pos c.close_dst.errno
    else if is_failure c.close_src
    then pos c.close_src.errno
    else pos 0

-- Check_dir, over the results of `open` and `close`.
unfoldable pub check_dir : Result → Result → ℤ
check_dir opened closed =
    if is_failure opened
    then if opened.errno == enotdir then pos 0 else pos opened.errno
    else if is_failure closed
    then pos closed.errno
    else negsuc 0

-- BUFFER_SIZE
abbrev pub buffer_size : ℕ
buffer_size = 4096

abbrev pub copy_first :
    List ℕ × List ℕ → Option (List (List ℕ × List ℕ)) → Option (List (List ℕ × List ℕ))
copy_first names none = none
copy_first names (some rest) = some (names ∷ rest)

-- The calls of Copy_file that Buffer_processing makes, with the path for each name; `none` where a path,
-- with the 0 behind it, is written over the end of the array. `buffer` is the string in the array,
-- `path_size` where it is cut off again.
unfoldable pub copies : List (List ℕ) → List ℕ → ℕ → Option (List (List ℕ × List ℕ))
copies [] buffer path_size = some []
copies (name ∷ names) buffer path_size =
    let rest = copies names (take path_size (buffer ++ name)) path_size in
    if ltb (length (buffer ++ name)) buffer_size
    then copy_first (name, buffer ++ name) rest
    else none

unfoldable pub buffer_processing : List (List ℕ) → List ℕ → Option (List (List ℕ × List ℕ))
buffer_processing names directory =
    if ltb (length directory + 1) buffer_size
    then copies names (directory ++ (b'/' ∷ [])) (length directory + 1)
    else none

-- What `main` returns for the options and at least two names: what Check_dir returns on the last name,
-- and Copy_file on the first two.
unfoldable pub main : ℤ → ℤ → ℤ → ℤ
main flags dir_checker copied =
    if is_inv_key flags
    then pos 1
    else if ltb_ℤ (pos 0) dir_checker
    then pos 1
    else if is_zero dir_checker && not (is_zero copied)
    then pos 1
    else pos 0
