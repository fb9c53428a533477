-- ===== src/Users/Crashes.antt =====
-- Where my_id reads NULL or a place outside its list.
use sem.Prelude.{ℕ, ◌≡◌, refl, some, none, List, [], ◌∷◌}
use sem.Users.{
  Passwd, Group, System, max_list_size, get_id_wihout_args, print_fields, print_groups, my_id,
  crashed,
}

module _ (system : System) where
  -- With two arguments or more.
  extra_crashed :
      (argv extra : List ℕ) (more : List (List ℕ)) → my_id system (argv ∷ extra ∷ more) ≡ crashed
  unfolding my_id print_fields
  extra_crashed argv extra more = refl

  -- Without arguments, where the group of the process is not known: the test looks at the user twice.
  no_group-crashed :
      (p : Passwd) (groups : List ℕ)
      → system.getpwuid system.uid ≡ some p
      → system.getgrgid system.gid ≡ none
      → system.getgroups max_list_size ≡ some groups
      → my_id system [] ≡ crashed
  unfolding my_id get_id_wihout_args print_fields
  no_group-crashed p groups user group listed = rw (user, group, listed, user) refl

  -- Without arguments, where the process has no supplementary groups: the place before the list is read.
  no_groups-crashed :
      (p : Passwd) (g : Group)
      → system.getpwuid system.uid ≡ some p
      → system.getgrgid system.gid ≡ some g
      → system.getgroups max_list_size ≡ some []
      → my_id system [] ≡ crashed
  unfolding my_id get_id_wihout_args print_fields print_groups
  no_groups-crashed p g user group none_listed = rw (user, group, none_listed, user) refl
