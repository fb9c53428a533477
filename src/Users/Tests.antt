-- ===== src/Users/Tests.antt =====
-- my_id on a small system.
use sem.Prelude.{
  ℕ, ◌≡◌, refl, arith, Option, some, none, List, [], ◌∷◌, ◌&&◌, ◌==◌, leb, if◌then◌else◌,
}
use sem.Prelude.Int.{pos, to_int}
use sem.Users.{
  Passwd, Group, System, entry, comma, newline, user_id, group_id, my_id, get_id_wihout_args,
  get_id_with_args, with_user, entry_of, print_rest, print_groups, print_fields, printed, error,
}
use sem.Users.Listing.{by_name, line, my_id_lem}

-- The user `m` with the number 7 and his three groups.
abbrev marta : Passwd
marta = record { pw_uid = 7; pw_gid = 3; pw_name = b'm' ∷ [] }

abbrev staff : Group
staff = record { gr_gid = 3; gr_name = b's' ∷ [] }

abbrev group_of : ℕ → Option Group
group_of gid =
    if gid == 3
    then some staff
    else if gid == 4
    then some (record { gr_gid = 4; gr_name = b'a' ∷ [] })
    else if gid == 5
    then some (record { gr_gid = 5; gr_name = b'w' ∷ [] })
    else none

abbrev user_of : List ℕ → Option Passwd
user_of (c ∷ []) = if c == b'm' then some marta else none
user_of name = none

abbrev system : System
system = record {
  uid = 7;
  gid = 3;
  isdigit = λ c. leb b'0' c && leb c b'9';
  strtol = λ text. pos 7;
  getpwuid = λ uid. if uid == 7 then some marta else none;
  getpwnam = user_of;
  getgrgid = group_of;
  getgroups = λ size. some (3 ∷ 4 ∷ 5 ∷ []);
  getgrouplist = λ name gid size. some (3 ∷ 4 ∷ 5 ∷ []);
}

itself :
    my_id system []
    ≡ printed (
        user_id (pos 7) (b'm' ∷ [])
        ∷ group_id (pos 3) (b's' ∷ [])
        ∷ entry (pos 5) (b'w' ∷ [])
        ∷ comma
        ∷ entry (pos 3) (b's' ∷ [])
        ∷ comma
        ∷ entry (pos 4) (b'a' ∷ [])
        ∷ newline
        ∷ [])
unfolding my_id get_id_wihout_args entry_of print_rest print_groups print_fields to_int
itself = refl

nobody : my_id system ((b'x' ∷ []) ∷ []) ≡ error
unfolding my_id get_id_with_args with_user
nobody = refl

my_id_lem_example :
    my_id system ((b'm' ∷ []) ∷ [])
    ≡ printed (line marta staff (5, b'w' ∷ []) ((3, b's' ∷ []) ∷ (4, b'a' ∷ []) ∷ []))
my_id_lem_example =
    my_id_lem system ((b'm' ∷ []) ∷ []) marta staff (5, b'w' ∷ [])
      ((3, b's' ∷ []) ∷ (4, b'a' ∷ []) ∷ []) (by_name refl refl refl refl) (omega arith)
      (refl, (refl, (refl, tt)))
