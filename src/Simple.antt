-- ===== src/Simple.antt =====
-- 3sem/my_cp/stupid_my_cp.c: copying one file. The results of the system calls are arguments.
pub mod Laws
mod Tests
use sem.Prelude.{Bool, true, false, not, Option, none, some, List, [], ◌∷◌, if◌then◌else◌}
use sem.Prelude.Int.{ℤ, pos, ◌+ℤ◌, ◌-ℤ◌, ltb_ℤ, to_int}
use sem.Files.{Written, call}

-- The loop of My_write over the results of `write`.
unfoldable pub simple_write : List ℤ → ℤ → ℤ → ℤ → Written
simple_write [] res_of_read written_size buffer = record { calls = []; returned = none }
simple_write (res_of_write ∷ results) res_of_read written_size buffer =
    let size = to_int (written_size +ℤ res_of_write) in
    let rest = simple_write results res_of_read size (buffer +ℤ size) in
    call buffer (res_of_read -ℤ written_size) (
      if ltb_ℤ res_of_write (pos 0)
      then record { calls = []; returned = some false }
      else if ltb_ℤ res_of_write res_of_read
      then rest
      else record { calls = []; returned = some true })

-- The loop of My_read: the results of `read`, each with what My_write returns on it. Both errors are
-- 0, which as a `bool` is false.
unfoldable pub simple_read : List (ℤ × Bool) → Option Bool
simple_read [] = none
simple_read ((res_of_read, wrote) ∷ results) =
    let rest = simple_read results in
    if ltb_ℤ res_of_read (pos 0)
    then some false
    else if not wrote
    then some false
    else if ltb_ℤ (pos 0) res_of_read
    then rest
    else some true

-- The descriptor that My_read writes to: that of the first `open`, or else that of the second.
abbrev pub target : ℤ → ℤ → ℤ
target fd_dest created = if ltb_ℤ fd_dest (pos 0) then created else fd_dest

-- Simple_copy: what My_read returns, on the target, is not looked at.
unfoldable pub simple_copy : ℤ → ℤ → ℤ → (ℤ → Option Bool) → Option Bool
simple_copy fd_srce fd_dest created my_read_to =
    if ltb_ℤ fd_srce (pos 0)
    then some false
    else elim (my_read_to (target fd_dest created)) [ none ↦ none | some copied ↦ some true ]

abbrev pub exit_code : Option Bool → Option ℤ
exit_code none = none
exit_code (some true) = some (pos 0)
exit_code (some false) = some (pos 1)

-- What `main` returns.
abbrev pub simple_main : ℤ → ℤ → ℤ → (ℤ → Option Bool) → Option ℤ
simple_main fd_srce fd_dest created my_read_to =
    exit_code (simple_copy fd_srce fd_dest created my_read_to)
