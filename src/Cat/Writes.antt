-- ===== src/Cat/Writes.antt =====
-- The loops around `write` of my_cat.c, of stupid_my_cp.c and of my_cp.c.
use sem.Prelude.{
  ℕ, suc, ◌≡◌, refl, arith, ap, Bool, true, false, Option, none, some, List, [], ◌∷◌, Bool-cases,
  inl, inr,
}
use sem.Prelude.Int.{ℤ, pos, ltb_ℤ, ◌+ℤ◌, ◌-ℤ◌, to_int}
use sem.Files.{Written, write_loop}
use sem.Files
use sem.Simple.{simple_write}
use sem.Cat.{Writing, while_write, my_write, call, return, negative_var}

-- What my_cat.c returns where the others return a `bool`.
abbrev pub code : Option Bool → Option ℤ
code none = none
code (some true) = some (pos 0)
code (some false) = some negative_var

abbrev pub as_writing : Written → Writing
as_writing w = record { calls = w.calls; returned = code w.returned }

all_written :
    (results : List ℤ) (res_of_read last written_size buffer : ℤ)
    → ltb_ℤ last res_of_read ≡ false
    → while_write results res_of_read last written_size buffer ≡ return (pos 0)
unfolding while_write
all_written [] res_of_read last written_size buffer all = rw all refl
all_written (r ∷ results) res_of_read last written_size buffer all = rw all refl

loop_same :
    (results : List ℤ) (res_of_read last written_size buffer : ℤ)
    → ltb_ℤ last res_of_read ≡ true
    → while_write results res_of_read last written_size buffer
      ≡ as_writing (write_loop results res_of_read written_size buffer)
unfolding while_write write_loop
loop_same [] res_of_read last written_size buffer more = rw more refl
loop_same (r ∷ results) res_of_read last written_size buffer more =
    elim (Bool-cases (ltb_ℤ r (pos 0))) [
      | inl negative ↦ rw (more, negative) refl
      | inr fine ↦ elim (Bool-cases (ltb_ℤ r res_of_read)) [
        | inl part ↦
            rw (more, fine, part)
              (ap (call buffer (res_of_read -ℤ written_size)) (
                loop_same results res_of_read r (to_int (written_size +ℤ r))
                  (buffer +ℤ to_int (written_size +ℤ r)) part))
        | inr whole ↦
            rw (more, fine, whole)
              (ap (call buffer (res_of_read -ℤ written_size)) (
                all_written results res_of_read r (to_int (written_size +ℤ r))
                  (buffer +ℤ to_int (written_size +ℤ r)) whole))
      ]
    ]

simple_same :
    (results : List ℤ) (res_of_read written_size buffer : ℤ)
    → simple_write results res_of_read written_size buffer
      ≡ write_loop results res_of_read written_size buffer
unfolding simple_write write_loop
simple_same [] res_of_read written_size buffer = refl
simple_same (r ∷ results) res_of_read written_size buffer =
    rw
      (simple_same results res_of_read (to_int (written_size +ℤ r))
        (buffer +ℤ to_int (written_size +ℤ r)))
      refl

-- For a buffer that is not empty and the same results of `write`, the three programs make the same
-- calls, and their My_write return alike: 0 in my_cat.c where the others return true, 1 where they
-- return false. For an empty buffer that of my_cat.c makes no call and returns 0.
pub my_write_same :
    (results : List ℤ) (n : ℕ)
    → (simple_write results (pos (suc n)) (pos 0) (pos 0) ≡ Files.my_write results (pos (suc n)))
      × (my_write results (pos (suc n)) ≡ as_writing (Files.my_write results (pos (suc n))))
      × (my_write results (pos 0) ≡ return (pos 0))
my_write_same results n = (
  simple_same results (pos (suc n)) (pos 0) (pos 0),
  loop_same results (pos (suc n)) (pos 0) (pos 0) (pos 0) (ground arith),
  all_written results (pos 0) (pos 0) (pos 0) (pos 0) refl,
)
