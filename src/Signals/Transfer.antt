-- ===== src/Signals/Transfer.antt =====
-- What the reader sends is what the writer prints.
use mathlib.Core.List.{append_assoc, append-nil}
use sem.Prelude.{
  ℕ, zero, suc, ◌+◌, ◌*◌, ◌/◌, ◌%◌, ◌<◌, ◌≡◌, refl, arith, ap, ◌∙◌, Option, some, List, [], ◌∷◌,
  ◌++◌, length, ◌==◌, if◌then◌else◌,
}
use sem.Signals.{
  Content, end, byte, Reader, Writer, Sent, bit, term, got, finished, fetch, reader_method,
  writer_method, ended, exchange, react, first_reader, first_writer,
}

-- A file that can be read to its end.
unfoldable pub content : List ℕ → Content
content [] = end
content (b ∷ bytes) = byte b (content bytes)

abbrev pub named : List (List ℕ) → List (Option Content)
named [] = []
named (file ∷ files) = some (content file) ∷ named files

-- The bytes of the open file and of the others behind it.
abbrev pub joined : List ℕ → List (List ℕ) → List ℕ
joined file [] = file
joined file (next ∷ files) = file ++ joined next files

abbrev pub Bytes : List ℕ → Type 0
Bytes [] = Unit
Bytes (b ∷ bytes) = (b < 256) × Bytes bytes

fetch-finished :
    (file : List ℕ) (files : List (List ℕ))
    → joined file files ≡ []
    → fetch (content file) (length files) (named files) ≡ finished
unfolding fetch content
fetch-finished [] [] e = refl
fetch-finished [] (next ∷ files) e = fetch-finished next files e
fetch-finished (b ∷ file) [] e = cc
fetch-finished (b ∷ file) (next ∷ files) e = cc

-- The next byte is fetched, from whichever file it stands in.
Fetches : List ℕ → List (List ℕ) → ℕ → List ℕ → Type 0
Fetches file files b text =
    (file' : List ℕ) × (files' : List (List ℕ)) × (fetch (content file) (length files) (named files)
      ≡ got b (content file') (length files') (named files'))
    × (joined file' files' ≡ text)

fetch-got :
    (file : List ℕ) (files : List (List ℕ)) (b : ℕ) (text : List ℕ)
    → joined file files ≡ b ∷ text
    → Fetches file files b text
unfolding fetch content Fetches
fetch-got [] [] b text e = absurd (cc)
fetch-got [] (next ∷ files) b text e = fetch-got next files b text e
fetch-got (x ∷ file) [] b text e = (file, [], ground arith, ground arith)
fetch-got (x ∷ file) (next ∷ files) b text e = (file, next ∷ files, ground arith, ground arith)

-- Eight rounds for a byte, one more for the end.
rounds : ℕ → ℕ → ℕ
rounds zero extra = suc extra
rounds (suc n) extra = suc (suc (suc (suc (suc (suc (suc (suc (rounds n extra))))))))

rounds_lem : (n extra : ℕ) → rounds n extra ≡ 8 * n + 1 + extra
unfolding rounds
rounds_lem zero extra = omega arith
rounds_lem (suc n) extra = omega (arith, rounds_lem n extra)

one_round :
    (more : ℕ) (r r' : Reader) (sent : Sent) (w : Writer)
    → reader_method r ≡ (r', sent)
    → exchange (suc more) r w ≡ react (exchange more r') sent w
unfolding exchange
one_round more r r' sent w e = ap (λ m. react (exchange more m.0) m.1 w) e

-- The round that fetches the byte.
first_round :
    (b : ℕ) (r : Reader) (fd : Content) (f_n : ℕ) (f_names : List (Option Content))
    → r.c ≡ 0
    → r.i % 8 ≡ 0
    → fetch r.fd r.f_n r.f_names ≡ got b fd f_n f_names
    → reader_method r
      ≡ (record { c = b / 2; i = 1; fd = fd; f_n = f_n; f_names = f_names }, bit (b % 2 == 1))
unfolding reader_method
first_round b r fd f_n f_names zero_c at_start fetched =
    rw (at_start, fetched, zero_c) (ground arith)

-- What is left in `c` after the eight bits of `b`, and what the writer has made of them.
abbrev shifted : ℕ → ℕ
shifted b = b / 2 / 2 / 2 / 2 / 2 / 2 / 2 / 2

abbrev low : ℕ → ℕ
low x = if x % 2 == 1 then 1 else 0

abbrev assembled : ℕ → ℕ
assembled b =
    ((((((((0 + low b * 1) % 256 + low (b / 2) * 2) % 256 + low (b / 2 / 2) * 4) % 256
                      + low (b / 2 / 2 / 2) * 8)
                    % 256
                  + low (b / 2 / 2 / 2 / 2) * 16)
                % 256
              + low (b / 2 / 2 / 2 / 2 / 2) * 32)
            % 256
          + low (b / 2 / 2 / 2 / 2 / 2 / 2) * 64)
        % 256
      + low (b / 2 / 2 / 2 / 2 / 2 / 2 / 2) * 128)
    % 256

low_lem : (x : ℕ) → low x ≡ x % 2
low_lem x = ground arith

shifted_lem : (b : ℕ) → b < 256 → shifted b ≡ 0
shifted_lem b small = omega arith

assembled_lem : (b : ℕ) → b < 256 → assembled b ≡ b
assembled_lem b small = omega (
  arith,
  low_lem b,
  low_lem (b / 2),
  low_lem (b / 2 / 2),
  low_lem (b / 2 / 2 / 2),
  low_lem (b / 2 / 2 / 2 / 2),
  low_lem (b / 2 / 2 / 2 / 2 / 2),
  low_lem (b / 2 / 2 / 2 / 2 / 2 / 2),
  low_lem (b / 2 / 2 / 2 / 2 / 2 / 2 / 2),
)

-- The seven rounds for the other bits.
other_rounds :
    (more b : ℕ) (fd : Content) (f_n : ℕ) (f_names : List (Option Content)) (out : List ℕ)
    → b < 256
    → exchange
        (suc (suc (suc (suc (suc (suc (suc more)))))))
        (record { c = b / 2; i = 1; fd = fd; f_n = f_n; f_names = f_names })
        (writer_method (b % 2 == 1) (record { var = 0; index = 0; output = out }))
      ≡ exchange more
          (record { c = 0; i = 8; fd = fd; f_n = f_n; f_names = f_names })
          (record { var = 0; index = 0; output = out ++ (b ∷ []) })
unfolding exchange reader_method writer_method
other_rounds more b fd f_n f_names out small =
    ap
      (λ p.
        exchange more (record { c = p.0; i = 8; fd = fd; f_n = f_n; f_names = f_names })
          (record { var = 0; index = 0; output = out ++ (p.1 ∷ []) }))
      carried
  where
    carried : ◌≡◌ {A = ℕ × ℕ} (shifted b, assembled b) (0, b)
    carried = λ k. (shifted_lem b small k, assembled_lem b small k)

byte_rounds :
    (more b : ℕ) (r : Reader) (fd : Content) (f_n : ℕ) (f_names : List (Option Content))
    (out : List ℕ)
    → b < 256
    → r.c ≡ 0
    → r.i % 8 ≡ 0
    → fetch r.fd r.f_n r.f_names ≡ got b fd f_n f_names
    → exchange
        (suc (suc (suc (suc (suc (suc (suc (suc more))))))))
        r
        (record { var = 0; index = 0; output = out })
      ≡ exchange more
          (record { c = 0; i = 8; fd = fd; f_n = f_n; f_names = f_names })
          (record { var = 0; index = 0; output = out ++ (b ∷ []) })
byte_rounds more b r fd f_n f_names out small zero_c at_start fetched =
    one_round _ r _ _ _ (first_round b r fd f_n f_names zero_c at_start fetched)
    ∙ other_rounds more b fd f_n f_names out small

-- The round that finds no byte in any file.
last_round :
    (more : ℕ) (r : Reader) (w : Writer)
    → r.i % 8 ≡ 0
    → fetch r.fd r.f_n r.f_names ≡ finished
    → exchange (suc more) r w ≡ ended w.output
unfolding reader_method
last_round more r w at_start e =
    one_round more r (record r { i = r.i % 8 }) term w (rw (at_start, e) refl)

transfers :
    (text file : List ℕ) (files : List (List ℕ)) (i extra : ℕ) (out : List ℕ)
    → joined file files ≡ text
    → Bytes text
    → i % 8 ≡ 0
    → exchange
        (rounds (length text) extra)
        (record { c = 0; i = i; fd = content file; f_n = length files; f_names = named files })
        (record { var = 0; index = 0; output = out })
      ≡ ended (out ++ text)
unfolding rounds Fetches
transfers [] file files i extra out e small at_start =
    last_round extra _ _ at_start (fetch-finished file files e) ∙ rw append-nil refl
transfers (b ∷ text) file files i extra out e small at_start =
    let (file', files', fetched, left) = fetch-got file files b text e in
    byte_rounds (rounds (length text) extra) b _ (content file') (length files') (named files') out
      small.0 refl at_start fetched
    ∙ transfers text file' files' 8 extra (out ++ (b ∷ [])) left small.1 refl
    ∙ rw append_assoc refl

-- If all files can be read, the bytes of all of them, in order, come out at the writer, which is then
-- ended; eight rounds for a byte and one for the end are enough, and more change nothing.
pub exchange_lem :
    (file : List ℕ) (files : List (List ℕ)) (extra : ℕ)
    → Bytes (joined file files)
    → exchange
        (8 * length (joined file files) + 1 + extra)
        (first_reader (content file) (length files) (named files))
        first_writer
      ≡ ended (joined file files)
exchange_lem file files extra small =
    rw (← rounds_lem (length (joined file files)) extra)
      (transfers (joined file files) file files 0 extra [] refl small refl)
