-- ===== src/Users/Listing.antt =====
-- What my_id prints.
use sem.Prelude.{
  ℕ, suc, ◌+◌, ◌-◌, ◌<◌, ◌≡◌, refl, sym, ap, ◌∙◌, arith, true, false, some, List, [], ◌∷◌, ◌++◌,
  length, length-append, not, get_elem?, get_elem?-append, drop, ◌==◌, if◌then◌else◌,
}
use sem.Prelude.Int.{pos, to_int}
use mathlib.Core.List.{append_assoc}
use sem.Users.{
  Passwd, Group, System, UserInfo, zeros, max_list_size, store, get_id_wihout_args, with_user,
  get_id_with_args, first_char, to_uid, print_usr_info, show, Piece, user_id, group_id, entry,
  comma, newline, entry_of, print_rest, print_groups, print_fields, my_id, printed,
}

-- What the system says, of the process or of the user that is named by the one argument: the user, his
-- group, and the ids of all his groups.
pub data Finds (system : System) (p : Passwd) (g : Group) (groups : List ℕ)
    : List (List ℕ) → Type 0 where
  itself :
      system.getpwuid system.uid ≡ some p
      → system.getgrgid system.gid ≡ some g
      → system.getgroups max_list_size ≡ some groups
      → Finds system p g groups []
  by_name :
      {argv : List ℕ}
      → system.isdigit (first_char argv) ≡ false
      → system.getpwnam argv ≡ some p
      → system.getgrgid p.pw_gid ≡ some g
      → system.getgrouplist p.pw_name p.pw_gid max_list_size ≡ some groups
      → Finds system p g groups (argv ∷ [])
  by_number :
      {argv : List ℕ}
      → system.isdigit (first_char argv) ≡ true
      → system.getpwuid (to_uid (system.strtol argv)) ≡ some p
      → system.getgrgid p.pw_gid ≡ some g
      → system.getgrouplist p.pw_name p.pw_gid max_list_size ≡ some groups
      → Finds system p g groups (argv ∷ [])

-- A group by its id and its name.
abbrev pub Named : Type 0
Named = ℕ × List ℕ

abbrev pub ids : List Named → List ℕ
ids [] = []
ids ((gid, name) ∷ gs) = gid ∷ ids gs

-- The system knows the groups by these names.
abbrev pub Known : System → List Named → Type 0
Known system [] = Unit
Known system ((gid, name) ∷ gs) =
    (system.getgrgid gid ≡ some (record { gr_gid = gid; gr_name = name })) × Known system gs

abbrev pub piece : Named → Piece
piece (gid, name) = entry (to_int (pos gid)) name

-- Groups with commas between them.
abbrev pub listed : List Named → List Piece
listed [] = []
listed (g ∷ []) = piece g ∷ []
listed (g ∷ h ∷ gs) = piece g ∷ comma ∷ listed (h ∷ gs)

-- The line that my_id prints.
abbrev pub line : Passwd → Group → Named → List Named → List Piece
line p g last gs =
    user_id (to_int (pos p.pw_uid)) p.pw_name
    ∷ group_id (to_int (pos g.gr_gid)) g.gr_name
    ∷ ((piece last ∷ comma ∷ listed gs) ++ (newline ∷ []))

length-ids : (gs : List Named) → length (ids gs) ≡ length gs
length-ids [] = refl
length-ids (g ∷ gs) = ap suc (length-ids gs)

store_all :
    (gs : List ℕ) (last : ℕ) (l : List ℕ)
    → length gs < length l
    → store (gs ++ (last ∷ [])) l ≡ gs ++ (last ∷ drop (suc (length gs)) l)
store_all gs last [] fits = absurd (omega arith)
store_all [] last (x ∷ l) fits = refl
store_all (g ∷ gs) last (x ∷ l) fits = ap (λ xs. g ∷ xs) (store_all gs last l (omega arith))

module _ (system : System) where
  -- A round of the loop.
  round :
      (size left i gid : ℕ) (name l : List ℕ) (rest : List Piece)
      → get_elem? l i ≡ some gid
      → system.getgrgid gid ≡ some (record { gr_gid = gid; gr_name = name })
      → print_rest system size l left (i + 1) ≡ some rest
      → print_rest system size l (suc left) i
        ≡ some (piece (gid, name) ∷ ((if not (i == size - 2) then comma ∷ [] else []) ++ rest))
  unfolding print_rest entry_of
  round size left i gid name l rest here known later = rw (here, known, later) refl

  rest_listed :
      (gs : List Named) (size i : ℕ) (before after l : List ℕ)
      → Known system gs
      → i ≡ length before
      → size ≡ i + length gs + 1
      → l ≡ before ++ (ids gs ++ after)
      → print_rest system size l (length gs) i ≡ some (listed gs)
  unfolding print_rest
  rest_listed [] size i before after l known at sized is = refl
  rest_listed ((gid, name) ∷ []) size i before after l known at sized is =
      let last : (i == size - 2) ≡ true = ground arith in
      round size 0 i gid name l [] (rw (is, at) (get_elem?-append before gid after)) known.0 refl
      ∙ rw last refl
  rest_listed ((gid, name) ∷ h ∷ gs) size i before after l known at sized is =
      let more : (i == size - 2) ≡ false = ground arith in
      round size (length (h ∷ gs)) i gid name l (listed (h ∷ gs))
        (rw (is, at) (get_elem?-append before gid (ids (h ∷ gs) ++ after))) known.0
        (rest_listed (h ∷ gs) size (i + 1) (before ++ (gid ∷ [])) after l known.1
          (omega (arith, length-append before (gid ∷ []))) (omega arith)
          (is ∙ sym (append_assoc before (gid ∷ []) (ids (h ∷ gs) ++ after))))
      ∙ rw more refl

  -- All groups, the last first.
  groups_listed :
      (gs : List Named) (last : Named) (after l : List ℕ)
      → Known system (last ∷ gs)
      → l ≡ ids gs ++ (last.0 ∷ after)
      → print_groups system (suc (length gs)) l ≡ some (piece last ∷ comma ∷ listed gs)
  unfolding print_groups entry_of
  groups_listed gs (gid, name) after l known is =
      let place : get_elem? l (length gs) ≡ some gid =
        rw (is, ← length-ids gs) (get_elem?-append (ids gs) gid after) in
      rw
        (
          place,
          known.0,
          rest_listed gs (suc (length gs)) 0 [] (gid ∷ after) l known.1 refl (omega arith) is,
        )
        refl

  -- The record that the two functions write, with these groups in its list.
  abbrev filled : Passwd → Group → List ℕ → UserInfo
  filled p g groups = record {
    psswd = some p;
    grp = some g;
    gr_list = store groups (zeros max_list_size);
    gr_list_size = length groups;
  }

  user_listed :
      (p : Passwd) (g : Group) (last : Named) (gs : List Named)
      → length gs < max_list_size
      → Known system (last ∷ gs)
      → print_usr_info system (filled p g (ids gs ++ (last.0 ∷ []))) ≡ some (line p g last gs)
  unfolding print_fields
  user_listed p g last gs few known =
      let all : length (ids gs ++ (last.0 ∷ [])) ≡ suc (length gs) =
        omega (arith, length-append (ids gs) (last.0 ∷ []), length-ids gs) in
      rw
        (
          all,
          groups_listed gs last (drop (suc (length (ids gs))) (zeros max_list_size))
              (store (ids gs ++ (last.0 ∷ [])) (zeros max_list_size)) known
              (store_all (ids gs) last.0 (zeros max_list_size) (omega (arith, length-ids gs))),
        )
        refl

  -- Where the system finds the user, his group and at most 50 groups of his, whether for the process
  -- itself, by a name or by a number, and knows the names of the groups: one line is printed, with the
  -- user, his group, the last of his groups and a comma, and then the others in their order with
  -- commas between them; each group stands there once, and 0 is returned.
  pub my_id_lem :
      (args : List (List ℕ)) (p : Passwd) (g : Group) (last : Named) (gs : List Named)
      → Finds system p g (ids gs ++ (last.0 ∷ [])) args
      → length gs < max_list_size
      → Known system (last ∷ gs)
      → my_id system args ≡ printed (line p g last gs)
  unfolding my_id get_id_wihout_args get_id_with_args with_user
  my_id_lem args p g last gs (itself user group groups) few known =
      rw (user, group, groups, user) (ap show (user_listed p g last gs few known))
  my_id_lem args p g last gs (by_name digit user group groups) few known =
      rw (digit, user, with_user, group, groups) (ap show (user_listed p g last gs few known))
  my_id_lem args p g last gs (by_number digit user group groups) few known =
      rw (digit, user, with_user, group, groups) (ap show (user_listed p g last gs few known))
