-- ===== src/Signals/Processes/Ends.antt =====
-- What the two processes have done when neither can take a step any more.
use sem.Prelude.{
  ℕ, suc, ◌+◌, ◌-◌, ◌*◌, ◌≤◌, ◌≡◌, ◌≢◌, ◌⊎◌, inl, inr, refl, sym, ◌∙◌, arith, true, false, Option,
  none, some, List, length, dec_lt,
}
use sem.Process.{State, Reach, steps}
use sem.Signals.{
  Reader, Writer, first_reader, first_writer, Exchange, exchange, ended, hangs, running,
  writer_method,
}
use sem.Signals.Transfer.{content, named, joined, Bytes, exchange_lem}
use sem.Signals.Processes.{
  Shared, Place, returned, pausing, terminated, method, reader_process, writer_process, begin,
}
use sem.Signals.Processes.Phases.{
  Phase, fresh, ready, dead, readers_turn, writers_turn, ending, gone, over, stuck, Goes, RunsOn,
  Reach-Phase, runs_on,
}

running_apart : (out : List ℕ) → ended out ≢ running
running_apart out e = cc

ended_same : {out out' : List ℕ} → ended out ≡ ended out' → out' ≡ out
ended_same e = cc

hangs_apart : (out out' : List ℕ) → ended out ≢ hangs out'
hangs_apart out out' e = cc

module _ (file : List ℕ) (files : List (List ℕ)) where
  abbrev pub reader : Reader
  reader = first_reader (content file) (length files) (named files)

  abbrev pub text : List ℕ
  text = joined file files

  -- The reader has been killed before the first bit, or both have ended and the writer has printed the
  -- text.
  abbrev pub Over : Shared → Place → Place → Type 0
  Over s p q =
      ((s.killed ≡ true) × (q ≡ pausing first_writer))
      ⊎ ((p ≡ returned) × ((w : Writer) × (q ≡ terminated w) × (w.output ≡ text)))

  module _ (small : Bytes text) where
    -- The exchange is over after 8 rounds for each byte, and one.
    few_rounds : (k : ℕ) → RunsOn reader k → k ≤ 8 * length text
    few_rounds k on = elim (dec_lt (8 * length text) k) [
      | yes more ↦
          let all : exchange (8 * length text + 1 + (k - (8 * length text + 1))) reader first_writer
              ≡ ended text =
            exchange_lem file files (k - (8 * length text + 1)) small in
          let same : 8 * length text + 1 + (k - (8 * length text + 1)) ≡ k = omega arith in
          absurd (running_apart text (sym (rw same at all) ∙ on))
      | no few ↦ omega arith
    ]

    -- Where the exchange has ended, it is with the whole text.
    at_end : (k : ℕ) (e : Exchange) → Goes reader (suc k) (λ m. e) → ended text ≡ e
    at_end k e go =
        let same : 8 * length text + 1 + k ≡ suc k + 8 * length text = omega arith in
        sym (rw same at (exchange_lem file files k small)) ∙ go (8 * length text)

    phase-Over :
        {n : ℕ} {s : Shared} {p q : Place}
        → Phase reader n s p q
        → reader_process s p ≡ none
        → writer_process s q ≡ none
        → Over s p q
    unfolding reader_process writer_process
    phase-Over fresh still still' = absurd (cc)
    phase-Over ready still still' = cc
    phase-Over dead still still' = inl (refl, refl)
    phase-Over (readers_turn k e go) still still' = cc
    phase-Over (writers_turn k true e go) still still' = cc
    phase-Over (writers_turn k false e go) still still' = cc
    phase-Over (ending k e on go) still still' = cc
    phase-Over (gone k e on go) still still' = cc
    phase-Over (over k {w} e on go) still still' = inr (refl, (w, refl, ended_same (at_end k _ go)))
    phase-Over (stuck k {w} e on go) still still' =
        absurd (hangs_apart text w.output (at_end k _ go))

    phase-steps :
        {n : ℕ} {s : Shared} {p q : Place} → Phase reader n s p q → n ≤ 16 * length text + 5
    phase-steps fresh = omega arith
    phase-steps ready = omega arith
    phase-steps dead = omega arith
    phase-steps (readers_turn k {r} {w} e go) =
        omega (arith, few_rounds k (runs_on reader k r w go))
    phase-steps (writers_turn k b {r} {w} e go) =
        omega (arith, few_rounds k (runs_on reader k r (writer_method b w) go))
    phase-steps (ending k e on go) = omega (arith, few_rounds k on)
    phase-steps (gone k e on go) = omega (arith, few_rounds k on)
    phase-steps (over k e on go) = omega (arith, few_rounds k on)
    phase-steps (stuck k e on go) = omega (arith, few_rounds k on)

-- `none` or not.
none_apart : {A : Type 0} (m : Option A) → (m ≡ none) ⊎ (m ≢ none)
none_apart none = inl refl
none_apart (some a) = inr (λ e. cc)

-- The two processes, in whatever order they take their steps, on files of bytes: in every state that can come
-- about they have taken at most 16 steps for each byte and 5 more, and one of the two can take a step, or
-- the reader has been killed by the child's first signal, with nothing printed, or both processes have ended
-- and what the writer has printed are the bytes of the files, one file after another.
pub processes_end :
    (file : List ℕ) (files : List (List ℕ)) (small : Bytes (joined file files))
    {s : State Shared Place} (r : Reach method 2 (begin (reader file files)) s)
    → (steps method r ≤ 16 * length (joined file files) + 5)
      × ((reader_process s.shared (s.place 0) ≢ none)
          ⊎ ((writer_process s.shared (s.place 1) ≢ none)
              ⊎ Over file files s.shared (s.place 0) (s.place 1)))
processes_end file files small {s} r =
    let phase = Reach-Phase (reader file files) r in
    (
      phase-steps file files small phase,
      elim (none_apart (reader_process s.shared (s.place 0))) [
        | inr goes_on ↦ inl goes_on
        | inl still ↦ elim (none_apart (writer_process s.shared (s.place 1))) [
          | inr goes_on ↦ inr (inl goes_on)
          | inl still' ↦ inr (inr (phase-Over file files small phase still still'))
        ]
      ],
    )
