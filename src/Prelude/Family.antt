-- ===== src/Prelude/Family.antt =====
-- Families indexed by numbers: the values of a semaphore set, the processes of a program. A write
-- at one index, and sums of a weight over the first `n` members.
use Prim.Native.Nat.{ℕ, zero, suc, ◌+◌, ◌*◌, ◌≤◌, ◌<◌}
use mathlib.Core.Path.{◌≡◌, refl, subst}
use mathlib.Core.Logic.{inl, inr}
use mathlib.Core.Bool.{true, false}
use native.Mathlib.Decide.{dec_lt}
use native.Mathlib.Omega.{arith}
use sem.Prelude.Tests.{ltb, lt→ltb, ◌==◌, ==_iff, Bool-cases, if◌then◌else◌}

abbrev pub update {ℓ} : {A : Type ℓ} → (ℕ → A) → ℕ → A → ℕ → A
update f i a j = if i == j then a else f j

-- What holds of the new member, and of every other one, holds of every member after a write.
pub update_all {ℓ κ} :
    {A : Type ℓ} (Q : ℕ → A → Type κ) (n : ℕ) (f : ℕ → A) (i : ℕ) (a : A)
    → Q i a
    → ((j : ℕ) → j < n → (i == j) ≡ false → Q j (f j))
    → (j : ℕ) → j < n
    → Q j (update f i a j)
update_all Q n f i a new old j lt = elim (Bool-cases (i == j)) [
  | inl e ↦ rw e (subst (λ k. Q k a) ((==_iff i j).0 e) new)
  | inr e ↦ rw e (old j lt e)
]

-- The weight of a member may depend on its index.
module _ {ℓ} {A : Type ℓ} (w : ℕ → A → ℕ) where
  pub total : ℕ → (ℕ → A) → ℕ
  total zero f = 0
  total (suc n) f = total n f + w n (f n)

  pub total-zero : (f : ℕ → A) → total zero f ≡ 0
  unfolding total
  total-zero f = refl

  pub total-suc : (n : ℕ) (f : ℕ → A) → total (suc n) f ≡ total n f + w n (f n)
  unfolding total
  total-suc n f = refl

  -- A write below `size` exchanges one weight in the sum, and any other leaves the sum alone.
  total-update_if :
      (size : ℕ) (members : ℕ → A) (at : ℕ) (new : A)
      → total size (update members at new) + (if ltb at size then w at (members at) else 0)
        ≡ total size members + (if ltb at size then w at new else 0)
  unfolding total
  total-update_if zero members at new = ground arith
  total-update_if (suc size) members at new = ground (arith, total-update_if size members at new)

  pub total-update :
      (size : ℕ) (members : ℕ → A) (at : ℕ) (new : A)
      → at < size
      → total size (update members at new) + w at (members at) ≡ total size members + w at new
  total-update size members at new below =
      let inside : ltb at size ≡ true = lt→ltb at size below in
      rw inside at (total-update_if size members at new)

  pub total-eq-zero : (n : ℕ) (f : ℕ → A) → ((i : ℕ) → i < n → w i (f i) ≡ 0) → total n f ≡ 0
  unfolding total
  total-eq-zero zero f h = refl
  total-eq-zero (suc n) f h =
      omega (arith, total-eq-zero n f (λ i lt. h i (omega arith)), h n (omega arith))

  pub le-total : (n : ℕ) (f : ℕ → A) (i : ℕ) → i < n → w i (f i) ≤ total n f
  unfolding total
  le-total zero f i h = absurd (omega arith)
  le-total (suc n) f i h = elim (dec_lt i n) [
    | yes below ↦ omega (arith, le-total n f i below)
    | no last ↦ ground arith
  ]

  pub total-le : (n : ℕ) (f : ℕ → A) → ((i : ℕ) (a : A) → w i a ≤ 1) → total n f ≤ n
  unfolding total
  total-le zero f small = omega arith
  total-le (suc n) f small = omega (arith, total-le n f small, small n (f n))

  -- Two different members weigh no more than all.
  pub add-le-total :
      (n : ℕ) (f : ℕ → A) (i j : ℕ) → i < j → j < n → w i (f i) + w j (f j) ≤ total n f
  unfolding total
  add-le-total zero f i j lt h = absurd (omega arith)
  add-le-total (suc n) f i j lt h = elim (dec_lt j n) [
    | yes below ↦ omega (arith, add-le-total n f i j lt below)
    | no last ↦ ground (arith, le-total n f i)
  ]

  -- A positive sum has a member that counts.
  pub total-pos : (n : ℕ) (f : ℕ → A) → 0 < total n f → (i : ℕ) × (i < n) × (0 < w i (f i))
  unfolding total
  total-pos zero f h = absurd (omega arith)
  total-pos (suc n) f h = elim (dec_lt 0 (w n (f n))) [
    | yes here ↦ (n, omega arith, here)
    | no light ↦ let (i, lt, pos) = total-pos n f (omega arith) in (i, omega arith, pos)
  ]

  -- A sum that is at most one counts one member at most.
  pub at_most_one :
      (n : ℕ) (f : ℕ → A) (i j : ℕ)
      → total n f ≤ 1
      → i < n
      → j < n
      → 1 ≤ w i (f i)
      → 1 ≤ w j (f j)
      → i ≡ j
  at_most_one n f i j one i_in j_in wi wj = elim (dec_lt i j) [
    | yes lower ↦ absurd (omega (arith, add-le-total n f i j lower j_in))
    | no up ↦ elim (dec_lt j i) [
      | yes higher ↦ absurd (omega (arith, add-le-total n f j i higher i_in))
      | no down ↦ omega arith
    ]
  ]

-- A sum over two weights is the sum of the sums.
pub total-add {ℓ} :
    {A : Type ℓ} (w v : ℕ → A → ℕ) (n : ℕ) (f : ℕ → A)
    → total (λ i a. w i a + v i a) n f ≡ total w n f + total v n f
unfolding total
total-add w v zero f = refl
total-add w v (suc n) f = omega (arith, total-add w v n f)

pub total_mono {ℓ} :
    {A : Type ℓ} (w v : ℕ → A → ℕ)
    → ((i : ℕ) (a : A) → w i a ≤ v i a)
    → (n : ℕ) (f : ℕ → A) → total w n f ≤ total v n f
unfolding total
total_mono w v le zero f = omega arith
total_mono w v le (suc n) f = omega (arith, total_mono w v le n f, le n (f n))

-- A sum with a bound on the first member and on each other.
module _ {ℓ} {A : Type ℓ} (w : ℕ → A → ℕ) (f : ℕ → A) (a b m : ℕ) (first : w 0 (f 0) ≤ a)
    (others : (i : ℕ) → i < m → w (suc i) (f (suc i)) ≤ b) where
  pub le-total-first : (n : ℕ) → n ≤ m → total w (suc n) f ≤ a + b * n
  le-total-first zero low = omega (arith, total-suc w 0 f, total-zero w f)
  le-total-first (suc n) low =
      omega (arith, total-suc w (suc n) f, le-total-first n (omega arith), others n low)
