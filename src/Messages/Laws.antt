-- ===== src/Messages/Laws.antt =====
-- What a message that is sent or received changes in the numbers of messages.
use sem.Prelude.{
  ℕ, ◌+◌, ◌≡◌, refl, arith, none, some, [], ◌∷◌, ◌++◌, length, ◌==◌, if◌then◌else◌, ◌⊎◌, inl, inr,
  Bool-cases, ==_iff,
}
use sem.Messages.{Queue, take_first, count}

-- One message of the type `t`.
abbrev pub one_of : ℕ → ℕ → ℕ
one_of t u = if t == u then 1 else 0

count-append : (u : ℕ) (q r : Queue) → count u (q ++ r) ≡ count u q + count u r
unfolding count
count-append u [] r = omega arith
count-append u (m ∷ q) r = omega (arith, count-append u q r)

pub count-nil : (u : ℕ) → count u [] ≡ 0
unfolding count
count-nil u = refl

pub count-cons : (u m : ℕ) (q : Queue) → count u (m ∷ q) ≡ one_of m u + count u q
unfolding count
count-cons u m q = refl

pub count-send : (u t : ℕ) (q : Queue) → count u (q ++ (t ∷ [])) ≡ count u q + one_of t u
unfolding count
count-send u t q = omega (arith, count-append u q (t ∷ []))

-- Nothing of the type, or one message less of it.
pub take_first-cases :
    (t : ℕ) (q : Queue)
    → ((take_first t q ≡ none) × (count t q ≡ 0))
      ⊎ ((r : Queue) × (take_first t q ≡ some r)
          × (length q ≡ length r + 1)
          × ((u : ℕ) → count u q ≡ count u r + one_of t u))
unfolding take_first count
take_first-cases t [] = inl (refl, refl)
take_first-cases t (m ∷ q) = elim (Bool-cases (m == t)) [
  | inl here ↦
      let same : m ≡ t = (==_iff m t).0 here in
      inr (q, rw here refl, omega arith, λ u. rw same (omega arith))
  | inr apart ↦ elim (take_first-cases t q) [
    | inl (absent, empty) ↦ inl (rw (apart, absent) refl, rw apart (omega (arith, empty)))
    | inr (r, found, size, sums) ↦
        inr (m ∷ r, rw (apart, found) refl, omega (arith, size), λ u. omega (arith, sums u))
  ]
]
