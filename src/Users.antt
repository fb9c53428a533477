-- ===== src/Users.antt =====
-- 2sem/my_id.c: the user, his group and all his groups. The databases of users and of groups, and what
-- the system knows of the process, are an argument.
pub mod Listing
mod Crashes
mod Tests
use sem.Prelude.{
  ℕ, zero, suc, ◌+◌, ◌-◌, ◌%◌, ◌^◌, Bool, Option, none, some, List, [], ◌∷◌, ◌++◌, length, not,
  get_elem?, ◌==◌, if◌then◌else◌,
}
use sem.Prelude.Int.{ℤ, pos, negsuc, to_int}

-- MAX_LIST_SIZE
abbrev pub max_list_size : ℕ
max_list_size = 50

-- The fields of `struct passwd` and `struct group` that are read; a text is a list of characters.
pub record Passwd : Type 0 where
  pub pw_uid : ℕ
  pub pw_gid : ℕ
  pub pw_name : List ℕ

pub record Group : Type 0 where
  pub gr_gid : ℕ
  pub gr_name : List ℕ

-- The calls of my_id; `none` for NULL or -1. `getgroups` and `getgrouplist` have the number of ids that
-- they may store as their last argument.
pub record System : Type 0 where
  pub uid : ℕ
  pub gid : ℕ
  pub isdigit : ℕ → Bool
  pub strtol : List ℕ → ℤ
  pub getpwuid : ℕ → Option Passwd
  pub getpwnam : List ℕ → Option Passwd
  pub getgrgid : ℕ → Option Group
  pub getgroups : ℕ → Option (List ℕ)
  pub getgrouplist : List ℕ → ℕ → ℕ → Option (List ℕ)

pub record UserInfo : Type 0 where
  pub psswd : Option Passwd
  pub grp : Option Group
  pub gr_list : List ℕ
  pub gr_list_size : ℕ

abbrev pub zeros : ℕ → List ℕ
zeros zero = []
zeros (suc n) = 0 ∷ zeros n

abbrev pub user_constructor : UserInfo
user_constructor = record {
  psswd = none;
  grp = none;
  gr_list = zeros max_list_size;
  gr_list_size = max_list_size;
}

-- The ids that a call stores in the list.
abbrev pub store : List ℕ → List ℕ → List ℕ
store [] l = l
store (g ∷ gs) [] = []
store (g ∷ gs) (x ∷ l) = g ∷ store gs l

-- How one of the two functions ends: with true and what it has written, with false, or in `abort`.
pub data Got : Type 0 where
  got : UserInfo → Got
  nothing : Got
  aborted : Got

-- What a call that stores the ids leaves.
abbrev pub with_groups : UserInfo → Option (List ℕ) → Got
with_groups user none = nothing
with_groups user (some gs) =
    got (record user { gr_list = store gs user.gr_list; gr_list_size = length gs })

-- The test looks at `psswd` twice.
abbrev pub if_user : UserInfo → Option (List ℕ) → Got
if_user user groups = elim user.psswd [ none ↦ nothing | some p ↦ with_groups user groups ]

-- `uid_t uid = strtol(…)`
abbrev pub to_uid : ℤ → ℕ
to_uid (pos n) = n % 2 ^ 32
to_uid (negsuc n) = 2 ^ 32 - 1 - n % 2 ^ 32

-- argv[0], where the text ends with 0.
abbrev pub first_char : List ℕ → ℕ
first_char [] = 0
first_char (c ∷ cs) = c

module _ (system : System) where
  unfoldable pub get_id_wihout_args : UserInfo → Got
  get_id_wihout_args user =
      if_user (record user { psswd = system.getpwuid system.uid; grp = system.getgrgid system.gid })
        (system.getgroups max_list_size)

  -- Behind the search for the user.
  unfoldable pub with_user : UserInfo → Option Passwd → Got
  with_user user none = nothing
  with_user user (some p) = elim (system.getgrgid p.pw_gid) [
    | none ↦ aborted
    | some g ↦
        with_groups (record user { psswd = some p; grp = some g })
          (system.getgrouplist p.pw_name p.pw_gid user.gr_list_size)
  ]

  unfoldable pub get_id_with_args : List ℕ → UserInfo → Got
  get_id_with_args argv user = with_user user (
      if system.isdigit (first_char argv)
      then system.getpwuid (to_uid (system.strtol argv))
      else system.getpwnam argv)

-- What is printed; a number is printed as an `int`.
pub data Piece : Type 0 where
  user_id : ℤ → List ℕ → Piece  -- "uid = %d(%s) "
  group_id : ℤ → List ℕ → Piece  -- "gid = %d(%s), группы = "
  entry : ℤ → List ℕ → Piece  -- "%d(%s)"
  comma : Piece
  newline : Piece

-- A piece, what stands behind it, and the rest; `none` where NULL is read or a place outside the list.
abbrev pub join : Option Piece → List Piece → Option (List Piece) → Option (List Piece)
join none behind rest = none
join (some p) behind none = none
join (some p) behind (some rest) = some (p ∷ (behind ++ rest))

abbrev pub named : ℕ → Option Group → Option Piece
named gid none = none
named gid (some g) = some (entry (to_int (pos gid)) g.gr_name)

-- How `main` ends: with 0, with ERROR, by a NULL pointer or an index outside the list, or in `abort`.
pub data Ended : Type 0 where
  printed : List Piece → Ended
  error : Ended
  crashed : Ended
  aborts : Ended

abbrev pub show : Option (List Piece) → Ended
show none = crashed
show (some pieces) = printed pieces

module _ (system : System) where
  unfoldable pub entry_of : Option ℕ → Option Piece
  entry_of none = none
  entry_of (some gid) = named gid (system.getgrgid gid)

  -- The loop, with so many rounds left, from `i`.
  unfoldable pub print_rest : ℕ → List ℕ → ℕ → ℕ → Option (List Piece)
  print_rest list_size gr_list zero i = some []
  print_rest list_size gr_list (suc left) i =
      join (entry_of (get_elem? gr_list i)) (if not (i == list_size - 2) then comma ∷ [] else [])
        (print_rest list_size gr_list left (i + 1))

  -- The last group first, and then the loop.
  unfoldable pub print_groups : ℕ → List ℕ → Option (List Piece)
  print_groups zero gr_list = none
  print_groups (suc before) gr_list =
      join (entry_of (get_elem? gr_list before)) (comma ∷ [])
        (print_rest (suc before) gr_list before 0)

  abbrev pub end_line : Option (List Piece) → Option (List Piece)
  end_line none = none
  end_line (some pieces) = some (pieces ++ (newline ∷ []))

  -- Behind the look at the two pointers.
  unfoldable pub print_fields : Option Passwd → Option Group → UserInfo → Option (List Piece)
  print_fields none grp user = none
  print_fields (some p) none user = none
  print_fields (some p) (some g) user =
      join (some (user_id (to_int (pos p.pw_uid)) p.pw_name))
        (group_id (to_int (pos g.gr_gid)) g.gr_name ∷ [])
        (end_line (print_groups user.gr_list_size user.gr_list))

  abbrev pub print_usr_info : UserInfo → Option (List Piece)
  print_usr_info user = print_fields user.psswd user.grp user

  abbrev pub show_user : Got → Ended
  show_user (got user) = show (print_usr_info user)
  show_user nothing = error
  show_user aborted = aborts

  -- `main`, by the arguments behind the name of the program.
  unfoldable pub my_id : List (List ℕ) → Ended
  my_id [] = show_user (get_id_wihout_args system user_constructor)
  my_id (argv ∷ []) = show_user (get_id_with_args system argv user_constructor)
  my_id (argv ∷ extra ∷ more) = show (print_usr_info user_constructor)
