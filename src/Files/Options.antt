-- ===== src/Files/Options.antt =====
-- The keys that Get_options finds.
use sem.Prelude.{
  ℕ, ◌+◌, ◌≡◌, arith, Bool, true, false, ◌||◌, some, List, [], ◌∷◌, ◌++◌, map, if◌then◌else◌,
}
use sem.Prelude.Int.{pos}
use sem.Files.{
  Getopt, force, interactive, verbose, end_of_keys, get_options, has_key, set_key, f_key, i_key,
  v_key,
}

pub data Key : Type 0 where
  f i v : Key

abbrev pub letter : Key → Getopt
letter f = force
letter i = interactive
letter v = verbose

abbrev pub same : Key → Key → Bool
same f f = true
same i i = true
same v v = true
same k l = false

abbrev pub asked : Key → List Key → Bool
asked k [] = false
asked k (l ∷ keys) = same k l || asked k keys

abbrev flags_of : Bool → Bool → Bool → ℕ
flags_of a b c = (if a then 1 else 0) + (if b then 2 else 0) + (if c then 4 else 0)

set-f : (a b c : Bool) → set_key (flags_of a b c) f_key ≡ flags_of true b c
set-f a b c = ground arith

set-i : (a b c : Bool) → set_key (flags_of a b c) i_key ≡ flags_of a true c
set-i a b c = ground arith

set-v : (a b c : Bool) → set_key (flags_of a b c) v_key ≡ flags_of a b true
set-v a b c = ground arith

get_options-flags_of :
    (keys : List Key) (rest : List Getopt) (a b c : Bool)
    → get_options (map letter keys ++ (end_of_keys ∷ rest)) (flags_of a b c)
      ≡ some (pos (flags_of (a || asked f keys) (b || asked i keys) (c || asked v keys)))
unfolding get_options
get_options-flags_of [] rest a b c = ground arith
get_options-flags_of (f ∷ keys) rest a b c =
    rw (set-f a b c, get_options-flags_of keys rest true b c) (ground arith)
get_options-flags_of (i ∷ keys) rest a b c =
    rw (set-i a b c, get_options-flags_of keys rest a true c) (ground arith)
get_options-flags_of (v ∷ keys) rest a b c =
    rw (set-v a b c, get_options-flags_of keys rest a b true) (ground arith)

-- Over options that `getopt_long` knows, in any order and any number, Get_options returns flags that
-- have the key of an option exactly if it was given.
pub get_options_lem :
    (keys : List Key) (rest : List Getopt)
    → (flags : ℕ) × (get_options (map letter keys ++ (end_of_keys ∷ rest)) 0 ≡ some (pos flags))
      × (has_key flags f_key ≡ asked f keys)
      × (has_key flags i_key ≡ asked i keys)
      × (has_key flags v_key ≡ asked v keys)
get_options_lem keys rest = (
  flags_of (asked f keys) (asked i keys) (asked v keys),
  get_options-flags_of keys rest false false false,
  ground arith,
  ground arith,
  ground arith,
)
