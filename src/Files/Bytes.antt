-- ===== src/Files/Bytes.antt =====
-- The bytes that My_read and My_write of my_cp.c bring to the destination.
use sem.Prelude.{
  ℕ, zero, suc, ◌-◌, ◌<◌, ◌≤◌, ◌≡◌, refl, ap, arith, Bool, true, false, Option, none, some, List,
  [], ◌∷◌, ◌++◌, length, take, drop, ◌∙◌, dec_lt, Bool-cases, inl, inr,
}
use sem.Prelude.Int.{ℤ, pos, negsuc, ◌+ℤ◌, ltb_ℤ, to_int}
use sem.Files.{write_loop, my_write, my_read}
use mathlib.Core.List.{append-nil}

-- What `write` may return while so many bytes are left: -1, or a number of them.
abbrev pub AreGranted : ℕ → List ℤ → Type 0
AreGranted left [] = Unit
AreGranted left (negsuc k ∷ results) = Unit
AreGranted left (pos r ∷ results) = (r ≤ left) × AreGranted (left - r) results

-- What these calls with these results write of a buffer.
abbrev pub transferred : List ℕ → List (ℤ × ℤ) → List ℤ → List ℕ
transferred buffer ((pos offset, size) ∷ calls) (pos r ∷ results) =
    take r (drop offset buffer) ++ transferred buffer calls results
transferred buffer calls results = []

-- A round of My_read: the bytes that `read` gives, `none` for -1, and the results of `write` then.
abbrev pub Round : Type 0
Round = Option (List ℕ) × List ℤ

abbrev pub is_true : Option Bool → Bool
is_true none = false
is_true (some b) = b

-- The rounds as My_read sees them; a My_write that has not returned has not returned true.
abbrev pub result_of : Round → ℤ × Bool
result_of (none, results) = (negsuc 0, false)
result_of (some bytes, results) =
    (pos (length bytes), is_true (my_write results (pos (length bytes))).returned)

abbrev pub results_of : List Round → List (ℤ × Bool)
results_of [] = []
results_of (round ∷ rounds) = result_of round ∷ results_of rounds

-- All that is read up to the end of the file, and all that is written meanwhile.
abbrev pub if_more : List ℕ → List ℕ → List ℕ
if_more [] rest = []
if_more (c ∷ cs) rest = rest

abbrev pub read_bytes : List Round → List ℕ
read_bytes [] = []
read_bytes ((none, results) ∷ rounds) = []
read_bytes ((some bytes, results) ∷ rounds) = bytes ++ if_more bytes (read_bytes rounds)

abbrev pub written_bytes : List Round → List ℕ
written_bytes [] = []
written_bytes ((none, results) ∷ rounds) = []
written_bytes ((some bytes, results) ∷ rounds) =
    transferred bytes (my_write results (pos (length bytes))).calls results
    ++ if_more bytes (written_bytes rounds)

abbrev pub RoundsGranted : List Round → Type 0
RoundsGranted [] = Unit
RoundsGranted ((none, results) ∷ rounds) = RoundsGranted rounds
RoundsGranted ((some bytes, results) ∷ rounds) =
    AreGranted (length bytes) results × RoundsGranted rounds

take_all : (bytes : List ℕ) → take (length bytes) bytes ≡ bytes
take_all [] = refl
take_all (c ∷ cs) = ap (λ xs. c ∷ xs) (take_all cs)

-- A loop that has less left than it began with does not return true.
never_true :
    (n left : ℕ) (results : List ℤ) (written_size buffer : ℤ)
    → left < n
    → AreGranted left results
    → is_true (write_loop results (pos n) written_size buffer).returned ≡ false
unfolding write_loop
never_true n left [] written_size buffer less granted = refl
never_true n left (negsuc k ∷ results) written_size buffer less granted =
    let negative : ltb_ℤ (negsuc k) (pos 0) ≡ true = ground arith in rw negative refl
never_true n left (pos r ∷ results) written_size buffer less (low, granted) =
    let fine : ltb_ℤ (pos r) (pos 0) ≡ false = ground arith in
    let part : ltb_ℤ (pos r) (pos n) ≡ true = ground arith in
    rw (fine, part)
      (never_true n (left - r) results (to_int (written_size +ℤ pos r))
        (buffer +ℤ to_int (written_size +ℤ pos r)) (omega arith) granted)

nothing : to_int (pos 0 +ℤ pos 0) ≡ pos 0
unfolding to_int ◌+ℤ◌
nothing = refl

no_move : pos 0 +ℤ pos 0 ≡ pos 0
unfolding ◌+ℤ◌
no_move = refl

-- My_write returns true only where it has written the whole buffer.
pub my_write_exact :
    (bytes : List ℕ) (results : List ℤ)
    → AreGranted (length bytes) results
    → is_true (my_write results (pos (length bytes))).returned ≡ true
    → transferred bytes (my_write results (pos (length bytes))).calls results ≡ bytes
unfolding write_loop
my_write_exact bytes [] granted done = cc
my_write_exact bytes (negsuc k ∷ results) granted done =
    let negative : ltb_ℤ (negsuc k) (pos 0) ≡ true = ground arith in cc (rw negative at done)
my_write_exact [] (pos zero ∷ results) (low, granted) done = refl
my_write_exact (c ∷ cs) (pos zero ∷ results) (low, granted) done =
    let less : ltb_ℤ (pos 0) (pos (length (c ∷ cs))) ≡ true = ground arith in
    let left : length (c ∷ cs) - 0 ≡ length (c ∷ cs) = omega arith in
    rw (less, nothing, no_move)
      (my_write_exact (c ∷ cs) results (rw left at granted) (rw (less, nothing, no_move) at done))
my_write_exact bytes (pos (suc r) ∷ results) (low, granted) done =
    let fine : ltb_ℤ (pos (suc r)) (pos 0) ≡ false = ground arith in
    elim (dec_lt (suc r) (length bytes)) [
      | yes part ↦
          let less : ltb_ℤ (pos (suc r)) (pos (length bytes)) ≡ true = ground arith in
          cc (
            rw (fine, less) at done,
            never_true (length bytes) (length bytes - suc r) results (to_int (pos 0 +ℤ pos (suc r)))
                (pos 0 +ℤ to_int (pos 0 +ℤ pos (suc r))) (omega arith) granted,
          )
      | no all ↦
          let whole : suc r ≡ length bytes = omega arith in
          let same : ltb_ℤ (pos (suc r)) (pos (length bytes)) ≡ false = ground arith in
          let all_taken : take (suc r) bytes ≡ bytes = rw whole (take_all bytes) in
          rw (fine, same) (append-nil (take (suc r) bytes) ∙ all_taken)
    ]

-- Where My_read returns true, the bytes that have been written are those that have been read, in their
-- order. `read` and `write` may return what they like, but that no write takes more than is left of
-- its buffer: -1, nothing, a part or all.
pub my_read_exact :
    (rounds : List Round)
    → RoundsGranted rounds
    → my_read (results_of rounds) ≡ some true
    → written_bytes rounds ≡ read_bytes rounds
unfolding my_read
my_read_exact [] granted done = refl
my_read_exact ((none, results) ∷ rounds) granted done = refl
my_read_exact ((some [], results) ∷ rounds) (writes, granted) done =
    elim (Bool-cases (is_true (my_write results (pos 0)).returned)) [
      | inl wrote ↦ rw (my_write_exact [] results writes wrote) refl
      | inr failed ↦ cc (rw failed at done)
    ]
my_read_exact ((some (c ∷ cs), results) ∷ rounds) (writes, granted) done =
    elim (Bool-cases (is_true (my_write results (pos (length (c ∷ cs)))).returned)) [
      | inl wrote ↦
          let fine : ltb_ℤ (pos (length (c ∷ cs))) (pos 0) ≡ false = ground arith in
          let more : ltb_ℤ (pos 0) (pos (length (c ∷ cs))) ≡ true = ground arith in
          rw
            (
              my_write_exact (c ∷ cs) results writes wrote,
              my_read_exact rounds granted (rw (wrote, fine, more) at done),
            )
            refl
      | inr failed ↦
          let fine : ltb_ℤ (pos (length (c ∷ cs))) (pos 0) ≡ false = ground arith in
          cc (rw (failed, fine) at done)
    ]

-- A round that writes the whole buffer at once, and the rounds on a file that is read in such pieces.
abbrev pub whole : List ℕ → Round
whole bytes = (some bytes, pos (length bytes) ∷ [])

abbrev pub rounds_of : List (ℕ × List ℕ) → List Round
rounds_of [] = whole [] ∷ []
rounds_of ((c, cs) ∷ pieces) = whole (c ∷ cs) ∷ rounds_of pieces

pub my_write_whole : (n : ℕ) → (my_write (pos n ∷ []) (pos n)).returned ≡ some true
unfolding write_loop
my_write_whole n =
    let fine : ltb_ℤ (pos n) (pos 0) ≡ false = ground arith in
    let all : ltb_ℤ (pos n) (pos n) ≡ false = ground arith in rw (fine, all) refl

-- Where each write takes the whole buffer, My_read returns true at the end of the file.
my_read_whole : (pieces : List (ℕ × List ℕ)) → my_read (results_of (rounds_of pieces)) ≡ some true
unfolding my_read
my_read_whole [] = rw (my_write_whole 0) refl
my_read_whole ((c, cs) ∷ pieces) =
    let fine : ltb_ℤ (pos (length (c ∷ cs))) (pos 0) ≡ false = ground arith in
    let more : ltb_ℤ (pos 0) (pos (length (c ∷ cs))) ≡ true = ground arith in
    rw (my_write_whole (length (c ∷ cs)), fine, more) (my_read_whole pieces)
