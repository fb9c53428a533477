-- ===== src/Pipe/Words.antt =====
-- The words and lines of a text, and that the counting loops count them across buffers.
use sem.Prelude.{
  ℕ, ◌+◌, ◌≤◌, ◌≡◌, refl, arith, Bool, true, false, not, List, [], ◌∷◌, ◌++◌, ◌==◌, if◌then◌else◌,
  length, ◌&&◌,
}
use sem.Pipe.{word_counter, str_counter}

-- The number of '\n' in a text.
pub lines : List ℕ → ℕ
lines [] = 0
lines (c ∷ text) = (if c == b'\n' then 1 else 0) + lines text

module _ (isspace : ℕ → Bool) where
  -- Whether the first character belongs to a word.
  abbrev pub starts_word : List ℕ → Bool
  starts_word [] = false
  starts_word (c ∷ text) = not (isspace c)

  -- A character in front of a text that begins with a word joins that word.
  abbrev pub join : ℕ → Bool → List (List ℕ) → List (List ℕ)
  join c true (word ∷ words) = (c ∷ word) ∷ words
  join c _ words = (c ∷ []) ∷ words

  -- The words of a text: its longest runs of characters that are no space.
  pub words : List ℕ → List (List ℕ)
  words [] = []
  words (c ∷ text) =
      let rest = words text in if isspace c then rest else join c (starts_word text) rest

  length-join :
      (c : ℕ) (starts : Bool) (ws : List (List ℕ))
      → (starts ≡ true → 1 ≤ length ws)
      → length (join c starts ws) + (if starts then 1 else 0) ≡ length ws + 1
  length-join c true [] enough = absurd (omega (arith, enough refl))
  length-join c true (word ∷ ws) enough = omega arith
  length-join c false ws enough = omega arith

  length-join-pos : (c : ℕ) (starts : Bool) (ws : List (List ℕ)) → 1 ≤ length (join c starts ws)
  length-join-pos c true [] = omega arith
  length-join-pos c true (word ∷ ws) = omega arith
  length-join-pos c false ws = omega arith

  length-words-pos : (text : List ℕ) → starts_word text ≡ true → 1 ≤ length (words text)
  unfolding words
  length-words-pos [] h = cc
  length-words-pos (c ∷ text) h =
      let e : isspace c ≡ false = ground arith in
      rw e (length-join-pos c (starts_word text) (words text))

  length-words-cons :
      (c : ℕ) (text : List ℕ)
      → isspace c ≡ false
      → length (words (c ∷ text)) + (if starts_word text then 1 else 0) ≡ length (words text) + 1
  unfolding words
  length-words-cons c text h =
      rw h (length-join c (starts_word text) (words text) (length-words-pos text))

  length-words-space :
      (c : ℕ) (text : List ℕ) → isspace c ≡ true → length (words (c ∷ text)) ≡ length (words text)
  unfolding words
  length-words-space c text h = rw h

  -- The loop counts the words of its buffer, but for a first one that had begun before.
  pub word_counter_lem :
      (text : List ℕ) (n : ℕ) (in_word : Bool)
      → (word_counter isspace text n in_word).0 + (if in_word && starts_word text then 1 else 0)
        ≡ n + length (words text)
  unfolding word_counter words
  word_counter_lem [] n true = omega arith
  word_counter_lem [] n false = omega arith
  word_counter_lem (c ∷ text) n true = ground (
    arith,
    word_counter_lem text n true,
    word_counter_lem text n false,
    length-words-space c text,
    length-words-cons c text,
  )
  word_counter_lem (c ∷ text) n false = ground (
    arith,
    word_counter_lem text (n + 1) true,
    word_counter_lem text n false,
    length-words-space c text,
    length-words-cons c text,
  )

  pub word_counter-nil : (n : ℕ) (in_word : Bool) → word_counter isspace [] n in_word ≡ (n, in_word)
  unfolding word_counter
  word_counter-nil n in_word = refl

  -- A buffer in two parts is counted as a whole, with what the first part leaves in `*pos_in_word`.
  pub word_counter-append :
      (xs ys : List ℕ) (n : ℕ) (in_word : Bool)
      → word_counter isspace (xs ++ ys) n in_word
        ≡ word_counter isspace ys
            (word_counter isspace xs n in_word).0
            (word_counter isspace xs n in_word).1
  unfolding word_counter
  word_counter-append [] ys n in_word = refl
  word_counter-append (c ∷ xs) ys n in_word = word_counter-append xs ys _ _

  -- The count that a buffer is begun with is added.
  pub word_counter_from :
      (xs : List ℕ) (n : ℕ) (in_word : Bool)
      → (word_counter isspace xs n in_word).0 ≡ n + (word_counter isspace xs 0 in_word).0
  word_counter_from xs n in_word =
      omega (arith, word_counter_lem xs n in_word, word_counter_lem xs 0 in_word)

  -- Where the loop stops does not depend on the count that it began with.
  pub word_counter_place :
      (xs : List ℕ) (m n : ℕ) (in_word : Bool)
      → (word_counter isspace xs m in_word).1 ≡ (word_counter isspace xs n in_word).1
  unfolding word_counter
  word_counter_place [] m n in_word = refl
  word_counter_place (c ∷ xs) m n in_word = word_counter_place xs _ _ _

  pub word_counter-le-length :
      (xs : List ℕ) (n : ℕ) (in_word : Bool) → (word_counter isspace xs n in_word).0 ≤ n + length xs
  unfolding word_counter
  word_counter-le-length [] n in_word = omega arith
  word_counter-le-length (c ∷ xs) n in_word = ground (
    arith,
    word_counter-le-length xs n in_word,
    word_counter-le-length xs n false,
    word_counter-le-length xs (n + 1) true,
    word_counter-le-length xs n true,
  )

pub str_counter_lem : (text : List ℕ) (n : ℕ) → str_counter text n ≡ n + lines text
unfolding str_counter lines
str_counter_lem [] n = omega arith
str_counter_lem (c ∷ text) n = ground (arith, str_counter_lem text n, str_counter_lem text (n + 1))

pub lines-nil : lines [] ≡ 0
unfolding lines
lines-nil = refl

pub lines-append : (xs ys : List ℕ) → lines (xs ++ ys) ≡ lines xs + lines ys
unfolding lines
lines-append [] ys = omega arith
lines-append (c ∷ xs) ys = omega (arith, lines-append xs ys)

pub lines-le-length : (xs : List ℕ) → lines xs ≤ length xs
unfolding lines
lines-le-length [] = omega arith
lines-le-length (c ∷ xs) = ground (arith, lines-le-length xs)
