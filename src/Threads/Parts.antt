-- ===== src/Threads/Parts.antt =====
-- The parameters of the threads add up to the expected value.
use sem.Prelude.{
  ℕ, zero, suc, ◌+◌, ◌*◌, ◌/◌, ◌%◌, ◌^◌, ◌<◌, ◌≡◌, refl, arith, true, ◌==◌, if◌then◌else◌, total,
  total-suc, total-zero, total-eq-zero, ap, sym, ◌∙◌,
}
use sem.Prelude.Int.{ℤ, pos, pos_part, to_int-pos, ◌+ℤ◌}
use sem.Threads.{
  Globals, Place, Algo, first, second, third, fourth, first_place, my_threads, sec_param,
  value_per_threads,
}
use sem.Threads.Invariant.{left, inside, Inv, IsFresh}
use sem.Threads.Work.{belongs}
use native.Mathlib.Nat.{div-add-mod}

left-first_place : (algo : Algo) (i prm : ℕ) → left i (first_place algo prm) ≡ prm
left-first_place first i prm = refl
left-first_place second i prm = refl
left-first_place third i prm = refl
left-first_place fourth i prm = omega arith

inside-first_place : (algo : Algo) (i prm : ℕ) → inside i (first_place algo prm) ≡ 0
inside-first_place first i prm = refl
inside-first_place second i prm = refl
inside-first_place third i prm = refl
inside-first_place fourth i prm = refl

belongs-first_place : (algo : Algo) (prm : ℕ) → belongs algo (first_place algo prm) ≡ true
belongs-first_place first prm = refl
belongs-first_place second prm = refl
belongs-first_place third prm = refl
belongs-first_place fourth prm = refl

fresh-first_place : (g : Globals) (algo : Algo) (prm : ℕ) → IsFresh g (first_place algo prm)
fresh-first_place g first prm = tt
fresh-first_place g second prm = tt
fresh-first_place g third prm = tt
fresh-first_place g fourth prm = tt

-- One thread with one parameter, and the others with another.
abbrev parts : Algo → ℤ → ℤ → ℕ → Place
parts algo value sec i = first_place algo (pos_part (if i == 0 then sec else value))

total-parts :
    (algo : Algo) (value sec m : ℕ)
    → total left (suc m) (parts algo (pos value) (pos sec)) ≡ sec + value * m
total-parts algo value sec zero = omega (
  arith,
  total-suc left 0 (parts algo (pos value) (pos sec)),
  total-zero left (parts algo (pos value) (pos sec)),
  left-first_place algo 0 sec,
)
total-parts algo value sec (suc m) = omega (
  arith,
  total-suc left (suc m) (parts algo (pos value) (pos sec)),
  total-parts algo value sec m,
  last,
)
  where
    last : left (suc m) (parts algo (pos value) (pos sec) (suc m)) ≡ value
    last = ground (arith, left-first_place algo (suc m) value)

module _ (expctd_val m : ℕ) (small : expctd_val < 2 ^ 31) where
  abbrev pub value : ℕ
  value = expctd_val / suc m

  abbrev pub rest : ℕ
  rest = expctd_val % suc m

  parts_add : value + rest + value * m ≡ expctd_val
  parts_add = omega (arith, div-add-mod expctd_val (suc m))

  pub value-pos : value_per_threads expctd_val (suc m) ≡ pos value
  unfolding value_per_threads
  value-pos = to_int-pos value (omega (arith, parts_add))

  pub sec-pos : sec_param expctd_val (suc m) ≡ pos (value + rest)
  unfolding sec_param ◌+ℤ◌
  sec-pos = rw value-pos (ground (arith, to_int-pos (value + rest) (omega (arith, parts_add))))

  pub my_threads-left :
      (algo : Algo) → total left (suc m) (my_threads algo expctd_val (suc m)).place ≡ expctd_val
  unfolding my_threads
  my_threads-left algo =
      ap (λ v. total left (suc m) (parts algo v (sec_param expctd_val (suc m)))) value-pos
      ∙ ap (λ v. total left (suc m) (parts algo (pos value) v)) sec-pos
      ∙ total-parts algo value (value + rest) m
      ∙ parts_add

  pub my_threads-Inv : (algo : Algo) → Inv (suc m) expctd_val (my_threads algo expctd_val (suc m))
  unfolding my_threads
  my_threads-Inv algo = record {
    fits = omega arith;
    exclusive = sym (
        total-eq-zero inside (suc m) (my_threads algo expctd_val (suc m)).place
          (λ i lt. inside-first_place algo i _));
    sum = omega (arith, my_threads-left algo);
    fresh = λ i lt. fresh-first_place (my_threads algo expctd_val (suc m)).shared algo _;
  }

pub my_threads-belongs :
    (algo : Algo) (expctd_val n i : ℕ)
    → belongs algo ((my_threads algo expctd_val n).place i) ≡ true
unfolding my_threads
my_threads-belongs algo expctd_val n i = belongs-first_place algo _
